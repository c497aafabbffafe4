-- ===== src/Runtime/MembershipSerialStore.antt =====
-- crates/misaka-runtime/src/membership_serial_store.rs: the allocator of membership serials. The
-- directory holds one file; a lock is never poisoned, since no code panics under it.
pub mod Fresh
use misaka.Prelude.{
  ℕ, ◌+◌, Text, Option, none, some, List, [], ◌∷◌, min, u64_max, to_string, parse_u64, trim,
}
use misaka.Prelude.Result.{Result, ok, err, ◌>>=◌}

-- The kinds of std::io::Error that can be told apart here: of the file system, or InvalidData.
pub data IoError : Type 0 where
  io_failure invalid_data : IoError

-- What `fs::write` does: the whole text, or an error with some text left in the file.
pub data Written : Type 0 where
  whole : Written
  torn : Option Text → Written

pub record MembershipSerialStore : Type 0 where
  pub file : Option Text
  pub state : ℕ

-- The persisted serial, if there is a file.
unfoldable pub read : Option Text → Result IoError (Option ℕ)
read none = ok none
read (some text) = elim (parse_u64 (trim text)) [ none ↦ err invalid_data | some n ↦ ok (some n) ]

unfoldable pub or_zero : Option ℕ → ℕ
or_zero none = 0
or_zero (some n) = n

unfoldable pub open_store : Option Text → Result IoError MembershipSerialStore
unfolding or_zero
open_store file = do mark ← read file; ok (record { file = file; state = or_zero mark })

-- u64::saturating_add(1)
unfoldable pub saturating_succ : ℕ → ℕ
saturating_succ n = min (n + 1) u64_max

unfoldable pub allocate : MembershipSerialStore → Written → Result IoError ℕ × MembershipSerialStore
unfolding saturating_succ
allocate s whole =
    let next = saturating_succ s.state in
    (ok next, record { file = some (to_string next); state = next })
allocate s (torn left) = (err io_failure, record s { file = left })

-- The life of the directory: processes that open the store, allocate, and stop.
pub data Event : Type 0 where
  allocates : Written → Event
  restarts : Event

-- The store of the running process, if it opened, and the file.
pub record Directory : Type 0 where
  pub content : Option Text
  pub process : Option MembershipSerialStore

-- Result::ok
unfoldable pub to_option {ℓ κ} : {E : Type ℓ} {A : Type κ} → Result E A → Option A
to_option (ok a) = some a
to_option (err e) = none

unfoldable pub restart : Option Text → Directory
unfolding to_option
restart content = record { content = content; process = to_option (open_store content) }

-- The serial that the event issues, if any, and what it leaves.
unfoldable pub allocated : Result IoError ℕ × MembershipSerialStore → Option ℕ × Directory
unfolding to_option
allocated (r, s) = (to_option r, record { content = s.file; process = some s })

unfoldable pub step : Directory → Event → Option ℕ × Directory
unfolding allocated
step d restarts = (none, restart d.content)
step d (allocates w) = elim d.process [ none ↦ (none, d) | some s ↦ allocated (allocate s w) ]

unfoldable pub prepend : Option ℕ → List ℕ → List ℕ
prepend none ns = ns
prepend (some n) ns = n ∷ ns

-- The serials that a life issues, the first one first.
unfoldable pub serials : Directory → List Event → List ℕ
unfolding prepend
serials d [] = []
serials d (e ∷ es) = let (n, next) = step d e in prepend n (serials next es)
