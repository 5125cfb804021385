-- ===== src/Route/Sticky/Table.antt =====
-- What the table of a session holds after each operation of internal/relay/sticky.go.
use Prim.Native.String.{String}
use nova_vei.Base.{
  ℕ, ◌≡◌, refl, ◌∙◌, true, [], ◌∷◌, if◌then◌else◌, ◌==◌, nat_eq, nat_beq_iff, string_eq, arith,
}
use nova_vei.Base.Maps.{put, get-put, get-del}
use nova_vei.Route.Sticky.{StickyEntry, Sessions, Stickies, sessions_of, store, write_entry}

nat_beq_refl : (n : ℕ) → (n == n) ≡ true
nat_beq_refl n = (nat_beq_iff n n).1 refl

-- The sessions of one group after its table was stored, and those of another.
pub sessions_of-store :
    (g j : ℕ) (sessions : Sessions) (s : Stickies)
    → sessions_of j (store g sessions s) ≡ (if j == g then sessions else sessions_of j s)
unfolding sessions_of store
sessions_of-store g j [] s = ground (arith, get-del g j s.tables)
sessions_of-store g j (e ∷ sessions) s = ground (arith, get-put g j (e ∷ sessions) s.tables)

pub sessions_of-store_here :
    (g : ℕ) (sessions : Sessions) (s : Stickies) → sessions_of g (store g sessions s) ≡ sessions
sessions_of-store_here g sessions s = sessions_of-store g g sessions s ∙ rw (nat_beq_refl g) refl

pub sessions_of-write_entry :
    (g : ℕ) (key : String) (entry : StickyEntry) (s : Stickies)
    → sessions_of g (write_entry g key entry s) ≡ put key entry (sessions_of g s)
unfolding write_entry sessions_of
sessions_of-write_entry g key entry s =
    ground (arith, nat_beq_refl g, get-put g g (put key entry (sessions_of g s)) s.tables)
