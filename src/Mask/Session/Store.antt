-- ===== src/Mask/Session/Store.antt =====
-- The store of the sessions. A session's record holds a pointer to its table, here a number: the
-- tables that were made are counted, and the number of a table is its place among them. Times and
-- durations are nanoseconds.
pub mod Expiry
use nova_vei.Base.{
  ℕ, zero, suc, ◌+◌, ◌-◌, Bool, true, false, not, List, [], ◌∷◌, Option, none, some, if◌then◌else◌,
  leb, ltb, ◌==◌, nat_eq, length,
}
use nova_vei.Base.Maps.{Map, get, put, del, retain}
use nova_vei.Mask.Bytes.{Bytes, bytes_eq}

abbrev pub session_ttl : ℕ
session_ttl = 1800000000000

pub record SessionRecord : Type 0 where
  pub mapping : ℕ
  pub last_access : ℕ

pub record SessionStore : Type 0 where
  pub sessions : Map Bytes SessionRecord
  pub made : ℕ

-- NewSessionStore
abbrev pub new_session_store : SessionStore
new_session_store = record { sessions = []; made = 0 }

abbrev pub is_fresh : ℕ → SessionRecord → Bool
is_fresh now rec = not (leb session_ttl (now - rec.last_access))

-- pruneExpiredLocked, and the number it returns.
unfoldable pub prune_expired : ℕ → SessionStore → ℕ × SessionStore
unfolding retain
prune_expired now s =
    let left = retain (λ key rec. is_fresh now rec) s.sessions in
    (length s.sessions - length left, record s { sessions = left })

-- `rec.lastAccess = now` under the lock: the record that was looked up before may have been taken from
-- the store since, and then the write is lost with it. A record is known by its table.
unfoldable pub touch : ℕ → Bytes → SessionRecord → SessionStore → SessionStore
unfolding get put
touch now key rec s = elim (get key s.sessions) [
  | none ↦ s
  | some stored ↦
      let written = put key (record stored { last_access = now }) s.sessions in
      if stored.mapping == rec.mapping then record s { sessions = written } else s
]

-- GetOrCreate from the second lock on, for a session that the first look did not find.
unfoldable pub find_or_make : ℕ → Bytes → SessionStore → ℕ × SessionStore
unfolding get put prune_expired
find_or_make now key s = elim (get key s.sessions) [
  | some rec ↦
      (rec.mapping, record s { sessions = put key (record rec { last_access = now }) s.sessions })
  | none ↦
      let pruned = (prune_expired now s).1 in
      let made_record : SessionRecord = record { mapping = s.made; last_access = now } in
      (s.made, record { sessions = put key made_record pruned.sessions; made = s.made + 1 })
]

-- GetOrCreate: the number of the table. `between` is what others do to the store after the look under
-- the read lock and before the write lock is taken.
unfoldable pub get_or_create :
    ℕ → Bytes → (SessionStore → SessionStore) → SessionStore → ℕ × SessionStore
unfolding get touch find_or_make
get_or_create now [] between s = (s.made, record s { made = s.made + 1 })
get_or_create now (c ∷ cs) between s = elim (get (c ∷ cs) s.sessions) [
  | some rec ↦ (rec.mapping, touch now (c ∷ cs) rec (between s))
  | none ↦ find_or_make now (c ∷ cs) (between s)
]

-- Delete
unfoldable pub delete : Bytes → SessionStore → SessionStore
unfolding del
delete [] s = s
delete (c ∷ cs) s = record s { sessions = del (c ∷ cs) s.sessions }
