-- ===== src/Lib.antt =====
-- My T Companion runs beside TeslaMate: it reads the cars' MQTT messages and database, sends push messages
-- to paired phones through a relay, and shares a car with a friend under a consent that its owner grants.
--
-- Parts and files:
--   * Base: what the parts share: lists, association lists for Go's maps (Base/Maps), `int64` as an
--     unbounded ℤ whose limits the code tests are written out (Base/Int), IEEE doubles as exact multiples of
--     2 ^ -1074 (Base/Float), strings as lists of bytes (Base/Text, with `trim_space`, `parse_int`,
--     `hex_decode` and `decode_runes` for Go's `strings`, `strconv`, `hex` and `utf8`), and time as
--     nanoseconds since Go's zero time (Base/Clock).
--   * Friend (internal/friendtogether): `Store`, `Grant` and the wire types in Types, identifiers in
--     Identity, `active` and `check_order` in Grant, `project_snapshot` in Projection, and the operations
--     `create`, `revoke`, `restrict`, `project` and `prune_terminal_before` in Operations, each from a store
--     and the clock's value to a store and a result. Change, Evolution and Trace say what calls do to a store.
--   * LowBattery (low_battery_notification.go, and reconcileFleet of mqtt_monitor_lifecycle.go): Observe has
--     `observe_message`, `reset_observation_baseline` and `reconcile_fleet`, Evaluate the settle timer's
--     `evaluate`, and Actions `apply_action` and `process_due_reminders`. Held says what calls leave latched, and
--     Trace runs these calls in any order.
--   * Push (push_subscribers.go): the registry of phones (Subscribers, Preferences, Pairing), the outbox
--     (Outbox), its retry pass (Retry), the first delivery (Delivery) and one request (Post), and which phone
--     may be sent a message (Sessions, for `deliverySubscriber` and the session records); Sizes and Trace
--     bound its runs.
--     Whether a phone wants a car's low-battery alerts, which LowBattery asks, is an argument there.
--   * LockSecure (lock_secure_notification.go, lock_secure_evidence.go, and reconcileFleet of
--     mqtt_monitor_lifecycle.go): Evidence has `observe_evidence` and `ready`, Observe the messages, resets and
--     the fleet, Finish the settle timer's `finish_pending`, FanOut the sending of an alert, and
--     Recipients to whom, from the registry of Push. A timer is the number that it was given; Calls runs these
--     operations in any order, and Automaton is their specification.
--   * Parking (parking_event_monitor.go): Events classifies the changes of a field, Receipts counts the
--     messages of the doors, Bound keeps the cars to 256, and Observe has `observe_message`, `prune_events`,
--     `reset_mqtt_baseline`, `reconcile_fleet` and `events_between`. Calls runs them in any order.
--   * Navigation (navigation_leg.go): Classify has `classify_navigation_leg_change`, what a published route means
--     for the leg that a car follows, and Pending the route that waits to be confirmed. What Go's
--     floating-point arithmetic gives is an argument, and so is the distance of two places.
--   * Storage (storage_policy.go): `prune_timestamp_map`, which bounds what the notifications remember.
--
-- Each operation runs under its mutex and is one step, but two: `retryDue` and `deliverJSONResult` release
-- it while they post, and are modelled with no other call between a request and what its answer changes.
-- The clock, random identifiers, the relay's answers and parsed JSON are arguments. Loops over slices and
-- maps are structural recursion; the loop that makes room for a car (Parking/Bound) runs on fuel, the
-- number of cars, since each turn forgets one. A timestamp that is stored as text is the time that parsing
-- it gives. Letters change case in ASCII only.
--
-- Not modelled: files and their errors, MQTT clients, HTTP servers and clients, SQL, logging, and the
-- other monitors (navigation sessions, charging, software updates, friend MQTT source).
pub mod Base
pub mod Friend
pub mod LockSecure
pub mod LowBattery
pub mod Navigation
pub mod Parking
pub mod Push
pub mod Storage
