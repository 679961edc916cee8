-- ===== src/LockSecure/Prefix.antt =====
-- Whom an alert is sent to (lock_secure_notification.go, `fanOutLockSecure`).
use my_t_companion.LockSecure.Finish.{Launch}
use my_t_companion.LockSecure.FanOut.{send_turns, fan_out, Turn, Sent, still_valid}
use my_t_companion.Base.{
  ℕ, List, ◌≡◌, ◌∷◌, true, Bool-cases, map, ◌<◌, take, length, inr, All, arith, inl, suc, ltb→lt,
  ap, [], refl,
}

-- The phones of the first turns are sent to, each while the alert still holds; all are, and the
-- deliveries succeed, where it is complete.
abbrev pub IsPrefix : Launch → List Turn → Sent → ℕ → Type 0
IsPrefix l turns sent n =
    (sent.installations ≡ map (λ (t : Turn). t.installation) (take n turns))
    × All (λ (t : Turn). still_valid l t.has_targets t.now t.view ≡ true) (take n turns)
    × (sent.complete ≡ true → (n ≡ length turns) × All (λ (t : Turn). t.succeeds ≡ true) turns)

send_turns-IsPrefix :
    (l : Launch) (turns : List Turn) → (n : ℕ) × IsPrefix l turns (send_turns l turns) n
unfolding send_turns
send_turns-IsPrefix l [] = (0, (refl, tt, λ all_sent. (refl, tt)))
send_turns-IsPrefix l (t ∷ ts) =
    let rest = send_turns-IsPrefix l ts in
    elim (Bool-cases (still_valid l t.has_targets t.now t.view)) [
      | inr gone ↦ rw gone (0, (refl, tt, λ all_sent. absurd (cc)))
      | inl holds ↦ rw holds (
        suc rest.0,
        (
          ap (λ xs. t.installation ∷ xs) rest.1.0,
          (holds, rest.1.1),
          λ all_sent. (
            ap suc (rest.1.2 (ground (arith, all_sent))).0,
            (ground (arith, all_sent), (rest.1.2 (ground (arith, all_sent))).1),
          ),
        ),
      )
    ]

-- An alert is sent to the phones of the first turns, each at a time when the car is still secure by the
-- evidence that the alert rests on. It counts as delivered only if there was a phone, every phone was sent
-- to and every delivery succeeded.
pub fan_out-IsPrefix :
    (l : Launch) (turns : List Turn)
    → ((n : ℕ) × IsPrefix l turns (fan_out l turns) n)
      × ((fan_out l turns).complete ≡ true → 0 < length turns)
unfolding fan_out
fan_out-IsPrefix l turns =
    let sent = send_turns-IsPrefix l turns in
    (
      (sent.0, (sent.1.0, sent.1.1, λ all_sent. sent.1.2 (ground (arith, all_sent)))),
      λ all_sent. ltb→lt 0 (length turns) (ground (arith, all_sent)),
    )
