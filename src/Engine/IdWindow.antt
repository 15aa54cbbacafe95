-- ===== src/Engine/IdWindow.antt =====
-- engine/idwindow.go: a set of IDs with a fixed maximum size, which remembers the range of the IDs
-- that it evicted. `pending` is the part of the queue from its head on: what stands before the head
-- is never read again.
pub mod Entries
pub mod Invariant
pub mod Members
pub mod Memory
use edge_feed_spec.Base.{
  ℕ, suc, ◌+◌, ◌*◌, ◌%◌, ◌^◌, List, [], ◌∷◌, ◌++◌, Option, none, some, Bool, true, false, not, ◌&&◌,
  ltb, leb, ◌==◌, if◌then◌else◌, min, max, length, filter_by, nat_eq,
}
use edge_feed_spec.Base.Exec.{Exec, done, panic, ◌>>=◌}
use edge_feed_spec.Base.Maps.{lookup, put, delete}

pub record Entry : Type 0 where
  pub id : ℕ
  pub n : ℕ

pub record IdWindow : Type 0 where
  pub limit : ℕ
  pub members : List (ℕ × ℕ)
  pub pending : List Entry
  pub next : ℕ
  pub evicted : Bool
  pub ev_lo : ℕ
  pub ev_hi : ℕ

abbrev pub u64_mod : ℕ
u64_mod = 2 ^ 64

unfoldable pub new_window : ℕ → IdWindow
new_window limit = record {
  limit = if ltb limit 1 then 1 else limit;
  members = [];
  pending = [];
  next = 0;
  evicted = false;
  ev_lo = 0;
  ev_hi = 0;
}

-- Whether a queue entry is the newest of its ID and the ID is a member.
unfoldable pub is_current : List (ℕ × ℕ) → Entry → Bool
is_current members e = elim (lookup e.id members) [ none ↦ false | some cur ↦ cur == e.n ]

unfoldable pub note_eviction : IdWindow → ℕ → IdWindow
note_eviction w id =
    if not w.evicted
    then record w { evicted = true; ev_lo = id; ev_hi = id }
    else record w { ev_lo = min w.ev_lo id; ev_hi = max w.ev_hi id }

-- What the eviction loop does with the entry at the head of the queue.
unfoldable pub drop_oldest : IdWindow → Entry → IdWindow
unfolding is_current note_eviction
drop_oldest w old =
    if is_current w.members old
    then note_eviction (record w { members = delete old.id w.members }) old.id
    else w

-- `for len(w.members) > w.limit`, over the pending entries; an empty queue panics.
unfoldable pub evict_loop : IdWindow → List Entry → Exec IdWindow
evict_loop w [] = if ltb w.limit (length w.members) then panic else done (record w { pending = [] })
evict_loop w (old ∷ rest) =
    let more = evict_loop (drop_oldest w old) rest in
    if ltb w.limit (length w.members) then more else done (record w { pending = old ∷ rest })

unfoldable pub compact : IdWindow → IdWindow
unfolding is_current
compact w =
    if leb (length w.pending) (2 * w.limit)
    then w
    else record w { pending = filter_by (is_current w.members) w.pending }

unfoldable pub enlist : IdWindow → ℕ → IdWindow
enlist w id =
    let n = (w.next + 1) % u64_mod in
    record w {
      next = n;
      members = put id n w.members;
      pending = w.pending ++ (record { id = id; n = n } ∷ []);
    }

unfoldable pub add : IdWindow → ℕ → Exec IdWindow
add w id = do let w' = enlist w id; evicted ← evict_loop w' w'.pending; done (compact evicted)

unfoldable pub remove : IdWindow → ℕ → IdWindow
remove w id = record w { members = delete id w.members }

unfoldable pub has : IdWindow → ℕ → Bool
has w id = elim (lookup id w.members) [ none ↦ false | some _ ↦ true ]

unfoldable pub may_have_evicted : IdWindow → ℕ → Bool
may_have_evicted w id = w.evicted && leb w.ev_lo id && leb id w.ev_hi

unfoldable pub size : IdWindow → ℕ
size w = length w.members
