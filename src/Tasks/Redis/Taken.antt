-- ===== src/Tasks/Redis/Taken.antt =====
-- The messages that XCLAIM and XREADGROUP give to adapters/driven/queue/redis/queue.go.
use sercha_core.Base.{
  ℕ, String, true, false, ◌&&◌, ◌≡◌, refl, ap, ◌∙◌, Option, none, some, List, [], ◌∷◌, ◌==◌, ==_iff,
  eq_refl, arith, Bool-cases, inl, inr,
}
use mathlib.Core.Path.{subst}
use sercha_core.Tasks.Redis.Store.{
  Message, Delivery, Server, held, find_message, delivered_again, claimed, x_claim, read_group,
  group_read, as_delivered,
}
use sercha_core.Tasks.Redis.Names.{Named-within, has, has-append, in_stream, is_for}
use sercha_core.Tasks.Redis.Tracks.{
  Reached, in_delayed, in_unread, in_read, needed, Safe, Reached-moved, held-drop, held-append,
}

held-again : (now m k : ℕ) (ds : List Delivery) → held k (delivered_again now m ds) ≡ held k ds
unfolding held delivered_again
held-again now m k [] = refl
held-again now m k (d ∷ ds) =
    ground (arith, held-again now m k ds, ==_iff d.msg_id m, ==_iff d.msg_id k, ==_iff m k)

-- A message that was read and is not acknowledged.
abbrev pub Taken : Message → Server → Type 0
Taken x s = (has x.msg_id x.task_id s.read ≡ true) × (held x.msg_id s.deliveries ≡ true)

is_for_refl : (o : Option String) → is_for o o ≡ true
is_for_refl none = refl
is_for_refl (some id) = eq_refl id

found_message :
    (m : ℕ) (xs : List Message) {x : Message}
    → find_message m xs ≡ some x
    → (x.msg_id ≡ m) × (has x.msg_id x.task_id xs ≡ true)
unfolding find_message has
found_message m [] h = absurd (ground arith)
found_message m (y ∷ xs) {x} h = elim (Bool-cases (y.msg_id == m)) [
  | inl e ↦
      let same : y ≡ x = ground arith in
      subst (λ (z : Message). (z.msg_id ≡ m) × (has z.msg_id z.task_id (y ∷ xs) ≡ true)) same
        ((==_iff y.msg_id m).0 e, ground (arith, ==_iff y.msg_id y.msg_id, is_for_refl y.task_id))
  | inr e ↦ let rest = found_message m xs {x = x} (ground arith) in (rest.0, ground (arith, rest.1))
]

absent_message :
    (m : ℕ) (o : Option String) (xs : List Message) → find_message m xs ≡ none → has m o xs ≡ false
unfolding find_message has
absent_message m o [] h = refl
absent_message m o (y ∷ xs) h = ground (arith, absent_message m o xs)

unlike :
    (m k : ℕ) (o : Option String) (xs : List Message)
    → has k o xs ≡ true
    → has m o xs ≡ false
    → (m == k) ≡ false
unlike m k o xs there absent = elim (Bool-cases (m == k)) [
  | inl e ↦
      let same = subst (λ (l : ℕ). has l o xs ≡ false) ((==_iff m k).0 e) absent in
      absurd (ground arith)
  | inr e ↦ e
]

-- What a claim or a read leaves, and the message that it gives.
abbrev pub IsTaking : ℕ → Option Message × Server → Type 0
IsTaking now r = Safe now r.1 × ((x : Message) → r.0 ≡ some x → Taken x r.1)

claimed-IsTaking :
    (now m : ℕ) (o : Option Message) (s : Server)
    → held m s.deliveries ≡ true
    → find_message m s.read ≡ o
    → Safe now s
    → IsTaking now (claimed now m o s)
unfolding needed
claimed-IsTaking now m none s there found safe = (
  (
    Named-within s _ safe.0.keyed refl (λ id k e h. h) (λ k id h. h) safe.0,
    λ id need.
        Reached-moved id s _ (λ h. h) (λ k h. h)
          (λ k h l. (
            h,
            ground (
              arith,
              held-drop k m s.deliveries,
              ==_iff m k,
              unlike m k (some id) s.read h (absent_message m (some id) s.read found),
            ),
          ))
          (safe.1 id need),
  ),
  λ x h. absurd (ground arith),
)
claimed-IsTaking now m (some x) s there found safe = (
  (
    Named-within s _ safe.0.keyed refl (λ id k e h. h) (λ k id h. h) safe.0,
    λ id need.
        Reached-moved id s _ (λ h. h) (λ k h. h) (λ k h l. (h, held-again now m k s.deliveries ∙ l))
          (safe.1 id need),
  ),
  λ y h.
      let same : x ≡ y = ground arith in
      let at = found_message m s.read {x = x} found in
      subst (λ (z : Message). Taken z (claimed now m (some x) s).1) same
        (at.1, ground (arith, held-again now m x.msg_id s.deliveries, at.0)),
)

pub x_claim-IsTaking : (now m : ℕ) (s : Server) → Safe now s → IsTaking now (x_claim now m s)
unfolding x_claim
x_claim-IsTaking now m s safe = elim (Bool-cases (held m s.deliveries)) [
  | inl there ↦ rw there (claimed-IsTaking now m (find_message m s.read) s there refl safe)
  | inr gone ↦ rw gone (safe, λ x h. absurd (ground arith))
]

has_self : (x : Message) → has x.msg_id x.task_id (x ∷ []) ≡ true
unfolding has
has_self x = ground (arith, ==_iff x.msg_id x.msg_id, is_for_refl x.task_id)

held_self : (now : ℕ) (x : Message) → held x.msg_id (as_delivered now x ∷ []) ≡ true
unfolding held
held_self now x = ground (arith, ==_iff x.msg_id x.msg_id)

-- A task whose message was not read has it among the rest, or in the one that is read.
moved :
    (now m : ℕ) (id : String) (x : Message) (xs : List Message) (s : Server)
    → s.unread ≡ x ∷ xs
    → has m (some id) s.unread ≡ true
    → Reached id (group_read now (x ∷ xs) s).1
unfolding has held
moved now m id x xs s split there = elim (Bool-cases (has m (some id) xs)) [
  | inl rest ↦ in_unread m rest
  | inr first ↦
      let parts = ap (has m (some id)) split in
      let it : (x.msg_id == m && is_for (some id) x.task_id) ≡ true = ground arith in
      in_read m (ground (arith, has-append m (some id) s.read (x ∷ [])))
        (ground (arith, held-append m s.deliveries (as_delivered now x ∷ [])))
]

same_messages :
    (now m : ℕ) (o : Option String) (x : Message) (xs : List Message) (s : Server)
    → s.unread ≡ x ∷ xs
    → in_stream m o (group_read now (x ∷ xs) s).1 ≡ true
    → in_stream m o s ≡ true
unfolding has
same_messages now m o x xs s split h =
    let parts = ap (has m o) split in
    ground (arith, has-append m o s.read (x ∷ []), has-append m o (x ∷ []) xs)

group_read-IsTaking :
    (now : ℕ) (xs : List Message) (s : Server)
    → s.unread ≡ xs
    → Safe now s
    → IsTaking now (group_read now xs s)
unfolding needed
group_read-IsTaking now [] s split safe = (safe, λ x h. absurd (ground arith))
group_read-IsTaking now (x ∷ xs) s split safe = (
  (
    Named-within s _ safe.0.keyed refl (λ id k e h. h)
        (λ m o h. same_messages now m o x xs s split h) safe.0,
    λ id need. elim (safe.1 id need) [
      | in_delayed h ↦ in_delayed h
      | in_unread m h ↦ moved now m id x xs s split h
      | in_read m h k ↦
          in_read m (ground (arith, has-append m (some id) s.read (x ∷ [])))
            (ground (arith, held-append m s.deliveries (as_delivered now x ∷ [])))
    ],
  ),
  λ y h.
      let same : x ≡ y = ground arith in
      subst (λ (z : Message). Taken z (group_read now (x ∷ xs) s).1) same
        (
          ground (arith, has-append x.msg_id x.task_id s.read (x ∷ []), has_self x),
          ground
              (arith, held-append x.msg_id s.deliveries (as_delivered now x ∷ []), held_self now x),
        ),
)

pub read_group-IsTaking : (now : ℕ) (s : Server) → Safe now s → IsTaking now (read_group now s)
unfolding read_group
read_group-IsTaking now s safe = group_read-IsTaking now s.unread s refl safe
