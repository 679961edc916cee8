-- ===== src/Friend/Operations/Entitled.antt =====
-- Whom `Project` of internal/friendtogether/store.go gives a snapshot, and of which grant.
use my_t_companion.Base.Eq.{bytes_eq_iff}
use my_t_companion.Base.{◌≡◌, true, arith, Bool, ap, ◌∙◌}
use my_t_companion.Friend.Operations.{
  same_recipient, Binding, RecipientPrincipal, SourceSnapshot, Store, Snapshot, Grant, project,
  Bytes, ok, put, advance,
}
use my_t_companion.Friend.Identity.{normalize_binding, normalize_id}
use my_t_companion.Base.Int.{ℤ}
use my_t_companion.Friend.Operations.Success.{project-IsProjected}
use my_t_companion.Friend.Authority.{
  IsNamed, IsLive, IsDelivered, owner_grant-IsNamed, deliver-IsDelivered,
}

-- The grant `g` was asked for by its recipient, under its own identifiers, source and revision, while it was
-- live; the snapshot is numbered after it; and it is stored again as advanced by the snapshot.
pub record IsEntitled (now : ℤ) (recipient : RecipientPrincipal) (binding : Binding) (revision : ℤ)
    (source : SourceSnapshot) (s : Store) (out : Snapshot) (g : Grant) : Type 0 where
  pub asked_by : normalize_id recipient.recipient_id ≡ (g.metadata.binding.recipient_id, true)
  pub named : IsNamed s binding source.source revision g
  pub live : IsLive now g
  pub delivered : IsDelivered now g out
  pub result : project now recipient binding revision source s ≡ (put (advance now out g) s, ok out)

same_recipient-eq :
    (recipient : RecipientPrincipal) (binding : Binding)
    → same_recipient recipient binding ≡ true
    → normalize_id recipient.recipient_id ≡ ((normalize_id binding.recipient_id).0, true)
unfolding same_recipient
same_recipient-eq recipient binding h =
    let own = normalize_id recipient.recipient_id in
    let requested = normalize_id binding.recipient_id in
    let same : own.0 ≡ requested.0 = (bytes_eq_iff own.0 requested.0).0 (ground (arith, h)) in
    let valid : own.1 ≡ true = ground (arith, h) in
    ap (λ (p : Bytes × Bool). p) (pair_path own.0 requested.0 own.1 true same valid)
  where
    pair_path : (a b : Bytes) (x y : Bool) → a ≡ b → x ≡ y → Path (Bytes × Bool) (a, x) (b, y)
    pair_path a b x y p q = ap (λ c. (c, x)) p ∙ ap (λ z. (b, z)) q

normalize_binding-recipient_id :
    (binding b : Binding)
    → normalize_binding binding ≡ (b, true)
    → (normalize_id binding.recipient_id).0 ≡ b.recipient_id
unfolding normalize_binding
normalize_binding-recipient_id binding b h = ground (arith, h)

-- A snapshot is given only to the recipient of a stored grant: the identifier of who asks is, in its normal
-- form, the one of the grant's recipient; the request names the grant by its own identifiers, source and
-- revision; the grant is neither revoked nor expired at a clock that has not gone back; the snapshot carries
-- the grant's binding and revision, the time and the next number; and the grant is stored again as advanced
-- by it.
pub project-IsEntitled :
    (now : ℤ) (recipient : RecipientPrincipal) (binding : Binding) (revision : ℤ)
    (source : SourceSnapshot) (s : Store) (out : Snapshot)
    → (project now recipient binding revision source s).1 ≡ ok out
    → (g : Grant) × IsEntitled now recipient binding revision source s out g
project-IsEntitled now recipient binding revision source s out h =
    let (g, p) = project-IsProjected now recipient binding revision source s out h in
    let named = owner_grant-IsNamed s binding source.source revision g p.named in
    let recipient_id = normalize_binding-recipient_id binding g.metadata.binding named.binding_ok in
    (
      g,
      record {
        asked_by =
            same_recipient-eq recipient binding p.recipient_same
            ∙ ap (λ (id : Bytes). (id, true)) recipient_id;
        named = named;
        live = p.live;
        delivered = deliver-IsDelivered now source g out p.delivered;
        result = p.result;
      },
    )
