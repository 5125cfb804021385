-- ===== src/Mask/Session/Store/Expiry.antt =====
-- When a session keeps its table.
use nova_vei.Base.{
  ℕ, ◌+◌, ◌<◌, ◌≡◌, refl, ap, ◌∙◌, Bool, true, ◌∷◌, none, some, if◌then◌else◌, arith, Option-cases,
  ◌==◌, nat_eq, inl, inr,
}
use nova_vei.Base.Maps.{Map, get, put, get-put, get-retain, kept, Distinct}
use nova_vei.Mask.Bytes.{Bytes, bytes_eq, bytes_beq_iff}
use nova_vei.Mask.Session.Store.{
  SessionRecord, SessionStore, is_fresh, prune_expired, touch, find_or_make, get_or_create,
}

get-put_here :
    (key : Bytes) (rec : SessionRecord) (m : Map Bytes SessionRecord)
    → get key (put key rec m) ≡ some rec
get-put_here key rec m = ground (arith, get-put key key rec m, bytes_beq_iff key key)

-- Others neither expire nor delete the session meanwhile.
abbrev pub Keeps : Bytes → (SessionStore → SessionStore) → Type 0
Keeps key between =
    (s : SessionStore) (rec : SessionRecord)
    → get key s.sessions ≡ some rec
    → (kept_record : SessionRecord) × (get key (between s).sessions ≡ some kept_record)
      × (kept_record.mapping ≡ rec.mapping)

-- The store holds the table for the session, as it was used at the time.
abbrev Stored : Bytes → ℕ → ℕ × SessionStore → Type 0
Stored key now (mapping, s) =
    (rec : SessionRecord) × (get key s.sessions ≡ some rec)
    × (rec.mapping ≡ mapping)
    × (rec.last_access ≡ now)

find_or_make-Stored :
    (now : ℕ) (key : Bytes) (s : SessionStore) → Stored key now (find_or_make now key s)
unfolding find_or_make
find_or_make-Stored now key s = elim (Option-cases (get key s.sessions)) [
  | inl new ↦
      rw (new, find_or_make)
        (
          record { mapping = s.made; last_access = now },
          get-put_here key (record { mapping = s.made; last_access = now })
              (prune_expired now s).1.sessions,
          refl,
          refl,
        )
  | inr (rec, known) ↦
      rw (known, find_or_make)
        (
          record rec { last_access = now },
          get-put_here key (record rec { last_access = now }) s.sessions,
          refl,
          refl,
        )
]

touch-Stored :
    (now : ℕ) (key : Bytes) (rec stored : SessionRecord) (s : SessionStore)
    → get key s.sessions ≡ some stored
    → stored.mapping ≡ rec.mapping
    → Stored key now (rec.mapping, touch now key rec s)
unfolding touch
touch-Stored now key rec stored s there same =
    let equal : (stored.mapping == rec.mapping) ≡ true =
      (nat_eq.agree_iff stored.mapping rec.mapping).1 same in
    rw (there, touch)
      (rw equal (
        record stored { last_access = now },
        get-put_here key (record stored { last_access = now }) s.sessions,
        same,
        refl,
      ))

get_or_create-Stored :
    (now c : ℕ) (cs : Bytes) (between : SessionStore → SessionStore) (s : SessionStore)
    → Keeps (c ∷ cs) between
    → Stored (c ∷ cs) now (get_or_create now (c ∷ cs) between s)
unfolding get_or_create
get_or_create-Stored now c cs between s keeps = elim (Option-cases (get (c ∷ cs) s.sessions)) [
  | inl new ↦ rw (new, get_or_create) (find_or_make-Stored now (c ∷ cs) (between s))
  | inr (rec, known) ↦
      let (stored, there, same) = keeps s rec known in
      rw (known, get_or_create) (touch-Stored now (c ∷ cs) rec stored (between s) there same)
]

get_or_create-known :
    (now c : ℕ) (cs : Bytes) (between : SessionStore → SessionStore) (rec : SessionRecord)
    (s : SessionStore)
    → get (c ∷ cs) s.sessions ≡ some rec
    → (get_or_create now (c ∷ cs) between s).0 ≡ rec.mapping
unfolding get_or_create
get_or_create-known now c cs between rec s h = rw (h, get_or_create) refl

-- Two requests of one named session share their table: the later one is given the table of the
-- earlier, even with a pruning in between, as long as that pruning is less than 30 minutes after
-- the earlier one, and nobody took the session from the store while the earlier one was between its
-- two locks; the keys of the store are distinct, as a map's are.
pub get_or_create-shared :
    (now pruned later c : ℕ) (cs : Bytes) (between between_later : SessionStore → SessionStore)
    (s : SessionStore)
    → Keeps (c ∷ cs) between
    → Distinct (get_or_create now (c ∷ cs) between s).1.sessions
    → pruned < now + 1800000000000
    → (get_or_create later
        (c ∷ cs)
        between_later
        (prune_expired pruned (get_or_create now (c ∷ cs) between s).1).1).0
      ≡ (get_or_create now (c ∷ cs) between s).0
unfolding prune_expired
get_or_create-shared now pruned later c cs between between_later s keeps d h =
    let after = (get_or_create now (c ∷ cs) between s).1 in
    let (rec, stored, same, fresh) = get_or_create-Stored now c cs between s keeps in
    let stays : is_fresh pruned rec ≡ true = ground (arith, fresh, h) in
    let found : get (c ∷ cs) (prune_expired pruned after).1.sessions ≡ some rec =
      get-retain (λ key r. is_fresh pruned r) (c ∷ cs) after.sessions d
      ∙ ap (kept (λ key r. is_fresh pruned r) (c ∷ cs)) stored
      ∙ ap (λ (b : Bool). if b then some rec else none) stays in
    get_or_create-known later c cs between_later rec (prune_expired pruned after).1 found ∙ same
