-- ===== src/StreamClient/Iterator.antt =====
-- streamclient/streamclient.go: the iterator over the entries of a stream, and replayLog of
-- rangepartition/valuelog.go, which runs a function on them.
pub mod Steps
pub mod Full
pub mod Extents
pub mod Moves
pub mod Replay
use autumn.Prelude.{
  ℕ, zero, suc, ◌==◌, ◌&&◌, Bool, true, false, not, Option, none, some, List, [], ◌∷◌, ltb,
  if◌then◌else◌, length, get_elem?,
}
use autumn.Prelude.Outcome.{Outcome, ok, err, panic, eof, failed, ◌>>=◌}
use autumn.Log.{LogEntry}
use autumn.Node.{Code, code_ok, code_end_of_stream, code_end_of_extent}

-- `Code_ERROR` and the codes that no case names do not come from `ReadEntries`.
pub data ResponseCode : Type 0 where
  known : Code → ResponseCode
  code_error code_other : ResponseCode

pub record Response : Type 0 where
  pub code : ResponseCode
  pub entries : List LogEntry
  pub end_offset : ℕ

-- Whether there is a connection to an extent's node, and what its `ReadEntries` answers to the n-th
-- attempt of a call; none is an error of the call.
pub record Network : Type 0 where
  pub connected : ℕ → Bool
  pub node_read_entries : ℕ → ℕ → ℕ → ℕ → Option Response

pub record ReadOption : Type 0 where
  pub read_from_start : Bool
  pub extent_id : ℕ
  pub offset : ℕ
  pub replay : Bool

-- The zero value.
abbrev pub no_option : ReadOption
no_option = record { read_from_start = false; extent_id = 0; offset = 0; replay = false }

unfoldable pub with_replay : ReadOption → ReadOption
with_replay opt = record opt { replay = true }

unfoldable pub with_read_from_start : ReadOption → ReadOption
with_read_from_start opt = record opt { read_from_start = true }

unfoldable pub with_read_from : ℕ → ℕ → ReadOption → ReadOption
with_read_from extent_id offset opt = record opt {
  read_from_start = false;
  extent_id = extent_id;
  offset = offset;
}

-- `current_extent_index` is none for -1.
pub record LogEntryIter : Type 0 where
  pub current_offset : ℕ
  pub current_extent_index : Option ℕ
  pub no_more : Bool
  pub cache : List LogEntry
  pub replay : ℕ

unfoldable pub index_from : ℕ → ℕ → List ℕ → Option ℕ
index_from i id [] = none
index_from i id (x ∷ xs) = let rest = index_from (suc i) id xs in if id == x then some i else rest

unfoldable pub get_extent_index_from_id : ℕ → List ℕ → Option ℕ
unfolding index_from
get_extent_index_from_id id ids = index_from 0 id ids

unfoldable pub new_log_entry_iter : List ℕ → ReadOption → LogEntryIter
unfolding get_extent_index_from_id
new_log_entry_iter ids opt = record {
  current_offset = if opt.read_from_start then 512 else opt.offset;
  current_extent_index =
      if opt.read_from_start then some 0 else get_extent_index_from_id opt.extent_id ids;
  no_more = false;
  cache = [];
  replay = if opt.replay then 1 else 0;
}

-- `getExtentConnFromIndex`: the slice of extents has no index -1.
unfoldable pub extent_at : Network → List ℕ → Option ℕ → Outcome ℕ
extent_at net ids none = panic
extent_at net ids (some i) = elim (get_elem? ids i) [
  | none ↦ if i == length ids then err eof else err failed
  | some id ↦ if net.connected id then ok id else err failed
]

-- The retries of `receiveEntries`: at most six.
unfoldable pub attempts : (ℕ → Option Response) → ℕ → ℕ → Option Response
attempts call zero n = call n
attempts call (suc left) n = elim (call n) [ some r ↦ some r | none ↦ attempts call left (suc n) ]

abbrev pub max_retries : ℕ
max_retries = 6

abbrev pub next_index : Option ℕ → Option ℕ
next_index none = some 0
next_index (some i) = some (suc i)

abbrev pub is_at : ℕ → Option ℕ → Bool
is_at n none = false
is_at n (some i) = i == n

abbrev pub no_entries : List LogEntry → Bool
no_entries [] = true
no_entries (e ∷ es) = false

-- What follows the call: the code decides where the next call reads. The error of the call, which
-- `Code_ERROR` returns, is nil here.
abbrev pub after_code : List ℕ → ℕ → ResponseCode → LogEntryIter → LogEntryIter × Outcome (Unit {0})
after_code ids end_offset (known code_ok) it = (record it { current_offset = end_offset }, ok tt)
after_code ids end_offset (known code_end_of_extent) it =
    let i = next_index it.current_extent_index in
    (
      record it {
        current_offset = 512;
        current_extent_index = i;
        no_more = if is_at (length ids) i then true else it.no_more;
      },
      ok tt,
    )
after_code ids end_offset (known code_end_of_stream) it = (record it { no_more = true }, ok tt)
after_code ids end_offset code_error it = (it, ok tt)
after_code ids end_offset code_other it = (it, err failed)

unfoldable pub take_response : List ℕ → Response → LogEntryIter → LogEntryIter × Outcome (Unit {0})
take_response ids r it =
    let cache = if no_entries r.entries then it.cache else r.entries in
    after_code ids r.end_offset r.code (record it { cache = cache })

unfoldable pub receive_entries : Network → List ℕ → LogEntryIter → LogEntryIter × Outcome (Unit {0})
receive_entries net ids it = elim (extent_at net ids it.current_extent_index) [
  | ok id ↦
      elim (attempts (λ n. net.node_read_entries n id it.current_offset it.replay) max_retries 0) [
        | some r ↦ take_response ids r it
        | none ↦ (it, err failed)
      ]
  | err e ↦ (it, err e)
  | panic ↦ (it, panic)
]

unfoldable pub has_next : Network → List ℕ → LogEntryIter → LogEntryIter × Outcome Bool
has_next net ids it = elim it.cache [
  | [] ↦
      if it.no_more
      then (it, ok false)
      else (let (it', received) = receive_entries net ids it in
          (it', received >>= λ u. ok (not (no_entries it'.cache))))
  | e ∷ es ↦ (it, ok true)
]

abbrev pub take_first : LogEntryIter → List LogEntry → LogEntryIter × Outcome (Option LogEntry)
take_first it [] = (it, panic)
take_first it (e ∷ es) = (record it { cache = es }, ok (some e))

-- `Next`; none is nil.
unfoldable pub next : Network → List ℕ → LogEntryIter → LogEntryIter × Outcome (Option LogEntry)
next net ids it =
    let (it', more) = has_next net ids it in
    elim more [
      | ok true ↦ take_first it' it'.cache
      | ok false ↦ (it', ok none)
      | err e ↦ (it', ok none)
      | panic ↦ (it', panic)
    ]

module _ {S : Type 0} (replay_func : LogEntry → S → S × Outcome Bool) where
  abbrev pub after_next :
      LogEntryIter × Outcome (Option LogEntry) → S → LogEntryIter × S × Outcome Bool
  after_next (it, ok (some e)) s = let (s', goes_on) = replay_func e s in (it, s', goes_on)
  after_next (it, ok none) s = (it, s, panic)
  after_next (it, err e) s = (it, s, err e)
  after_next (it, panic) s = (it, s, panic)

  abbrev pub after_has_next :
      Network → List ℕ → LogEntryIter × Outcome Bool → S → LogEntryIter × S × Outcome Bool
  after_has_next net ids (it, ok true) s = after_next (next net ids it) s
  after_has_next net ids (it, ok false) s = (it, s, ok false)
  after_has_next net ids (it, err e) s = (it, s, err e)
  after_has_next net ids (it, panic) s = (it, s, panic)

  -- The body of the loop of replayLog: whether the loop goes on. A function that reads its entry
  -- panics on nil.
  unfoldable pub replay_next : Network → List ℕ → LogEntryIter → S → LogEntryIter × S × Outcome Bool
  replay_next net ids it s = after_has_next net ids (has_next net ids it) s

  -- The loop; none in place of an outcome means that the fuel ran out.
  unfoldable pub replay_loop :
      ℕ → Network → List ℕ → LogEntryIter → S → Option (S × Outcome (Unit {0}))
  replay_loop zero net ids it s = none
  replay_loop (suc fuel) net ids it s =
      let (it', s', goes_on) = replay_next net ids it s in
      elim goes_on [
        | ok true ↦ replay_loop fuel net ids it' s'
        | ok false ↦ some (s', ok tt)
        | err e ↦ some (s', err e)
        | panic ↦ some (s', panic)
      ]

  unfoldable pub replay_log :
      ℕ → Network → List ℕ → ℕ → ℕ → Bool → S → Option (S × Outcome (Unit {0}))
  unfolding with_replay with_read_from_start with_read_from
  replay_log fuel net ids start_extent_id start_offset replay s =
      let opt = if replay then with_replay no_option else no_option in
      let opt' =
        if start_offset == 0 && start_extent_id == 0
        then with_read_from_start opt
        else with_read_from start_extent_id start_offset opt in
      replay_loop fuel net ids (new_log_entry_iter ids opt') s
