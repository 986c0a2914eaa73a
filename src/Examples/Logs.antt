-- ===== src/Examples/Logs.antt =====
-- The theorems on the entries of a log at concrete entries.
use autumn.Prelude.{
  ℕ, zero, suc, ◌+◌, ◌≤◌, ◌≡◌, refl, ap, ◌∙◌, true, false, Option, none, some, List, [], ◌∷◌, ◌++◌,
  arith, map, length, take, drop, replicate, take-append, drop-append, ◌==◌, inr, All,
}
use autumn.Prelude.Outcome.{Error, Outcome, ok}
use autumn.Extent.Checksum.{adler_check_sum}
use autumn.Extent.Block.{Block, align}
use autumn.Extent.Header.{marshal}
use autumn.Extent.File.{Extent}
use autumn.Extent.File.Layout.{encodings, Holds, Holds-length}
use autumn.Extent.Entries.{read_entries, max_entries_size}
use autumn.Extent.Entries.Answers.{IsAnswer, keeps_going, read_entries-IsAnswer}
use autumn.Extent.Entries.Total.{Moves, read_entries-total}
use autumn.Log.{LogEntry, Codec, bare, should_write_value_to_lsm, varint_sizes}
use autumn.Log.Extraction.{Packs, is_small}
use autumn.Log.Chunks.{Chunk}
use autumn.RangePartition.Values.{size_varint, size_loop}
use autumn.Node.{Code, error_to_code}
use autumn.StreamClient.Blocks.{
  entries_to_blocks, merge_small, own_blocks, own_block, marshal_to, ceil,
}
use autumn.StreamClient.Blocks.Filling.{header_fields-le}
use autumn.StreamClient.Blocks.Own.{IsWritable}
use autumn.StreamClient.Blocks.Packing.{IsPacking, entries_to_blocks-IsPacking}
use autumn.StreamClient.Iterator.{Network, Response, known, attempts, replay_log}
use autumn.StreamClient.Iterator.Steps.{run}
use autumn.StreamClient.Iterator.Extents.{IsServed}
use autumn.StreamClient.Iterator.Replay.{Stored, read_stream, replay_log-read_stream}
use autumn.StreamClient.Appending.{answered, append, append_entries}
use autumn.StreamClient.Appending.Addresses.{IsAddressed, append_entries-IsAddressed}

-- The fields of an entry one behind the other, with the length of the key.
abbrev pub plain_marshal : LogEntry → List ℕ
plain_marshal e = e.meta ∷ e.user_meta ∷ e.expires_at ∷ length e.key ∷ (e.key ++ e.contents)

abbrev pub plain_unmarshal : List ℕ → Option LogEntry
plain_unmarshal (meta ∷ user_meta ∷ expires_at ∷ n ∷ rest) = some (record {
  key = take n rest;
  contents = drop n rest;
  meta = meta;
  user_meta = user_meta;
  expires_at = expires_at;
  extent_id = 0;
  offset = 0;
  estimated_size = 0;
})
plain_unmarshal _ = none

pub plain_round_trip : (e : LogEntry) → plain_unmarshal (plain_marshal e) ≡ some (bare e)
plain_round_trip e =
    rw
      (
        take-append e.key e.contents (length e.key) refl,
        drop-append e.key e.contents (length e.key) refl,
      )
      refl

size_loop-positive : (fuel x : ℕ) → 1 ≤ size_loop fuel x
unfolding size_loop
size_loop-positive zero x = omega arith
size_loop-positive (suc fuel) x = ground arith

pub length-offsets : (os : List ℕ) → length os ≤ 11 + varint_sizes os
unfolding size_varint
length-offsets [] = omega arith
length-offsets (o ∷ os) = omega (arith, size_loop-positive 9 o, length-offsets os)

abbrev pub plain : Codec
plain = record {
  size = λ e. length (plain_marshal e);
  marshal = plain_marshal;
  unmarshal = plain_unmarshal;
  info_size = λ e. length (plain_marshal e);
  marshal_offsets = λ os. os;
  unmarshal_offsets = some;
  length-marshal = λ e. refl;
  unmarshal-marshal = plain_round_trip;
  unmarshal_offsets-marshal_offsets = λ os. refl;
  length-marshal_offsets = length-offsets;
}

-- An entry that goes to the memtable whole, and one that has a block of its own.
abbrev pub small : LogEntry
small = record {
  key = 1 ∷ 255 ∷ 255 ∷ 255 ∷ 255 ∷ 255 ∷ 255 ∷ 255 ∷ 250 ∷ [];
  contents = 5 ∷ [];
  meta = 0;
  user_meta = 0;
  expires_at = 0;
  extent_id = 0;
  offset = 0;
  estimated_size = 0;
}

abbrev pub big : LogEntry
big = record small { meta = 2 }

writable : (e : LogEntry) → length (plain_marshal e) ≡ 14 → IsWritable plain e
writable e h = record {
  small = λ s. omega (arith, h);
  positive = omega arith;
  word = omega (arith, h);
}

entries_to_blocks-IsPacking_example :
    (blocks : List Block) × (j k : ℕ) × (entries_to_blocks plain (small ∷ big ∷ [])
      ≡ ok (blocks, j, k))
    × IsPacking plain blocks j k (small ∷ big ∷ [])
entries_to_blocks-IsPacking_example =
    entries_to_blocks-IsPacking plain small (big ∷ [])
      (writable small refl, (writable big refl, tt))

abbrev pub filled : List ℕ
filled = plain_marshal big ++ replicate 498 0

abbrev pub big_block : Block
big_block = record {
  check_sum = adler_check_sum filled;
  block_length = 512;
  contents = filled;
  user_data = 0 ∷ 14 ∷ [];
}

pub big_block-Packs : Packs plain big_block (big ∷ [])
unfolding align
big_block-Packs = record {
  block = record {
    aligned = refl;
    sized = refl;
    word = omega arith;
    summed = refl;
    fits = header_fields-le big_block (omega arith) (omega arith);
  };
  offsets = refl;
  back = replicate 498 0;
  packed = refl;
  uniform = inr refl;
}

abbrev pub chunk : Chunk plain
chunk = record { block = big_block; entries = big ∷ []; packs = big_block-Packs }

-- An open extent with that block.
abbrev pub log_extent : Extent
log_extent = record {
  is_seal = false;
  commit_length = 1536;
  id = 3;
  file = record { bytes = marshal 3 ++ encodings (big_block ∷ []); seal_attr = false };
}

pub log_extent-Holds : Holds log_extent (big_block ∷ [])
log_extent-Holds = record {
  blocks = (big_block-Packs.block, tt);
  bytes = refl;
  commit = refl;
  small = omega arith;
}

read_entries-IsAnswer_example :
    (es : List LogEntry) × (off : ℕ) × (e : Option Error) × (read_entries plain log_extent 512 4096
        true
      ≡ some (ok (es, off, e)))
    × IsAnswer plain log_extent 512 4096 0 (chunk ∷ []) (es, off, e)
read_entries-IsAnswer_example =
    read_entries-IsAnswer plain log_extent [] chunk [] 4096 log_extent-Holds

read_entries-total_example :
    (r : Outcome (List LogEntry × ℕ × Option Error)) × (read_entries plain log_extent 513 4096 true
      ≡ some r)
    × Moves plain 513 log_extent r
read_entries-total_example =
    read_entries-total plain log_extent 513 4096 true
      (omega (arith, Holds-length log_extent (big_block ∷ []) log_extent-Holds))

-- The answer of a node that has the extent.
abbrev pub respond : Outcome Code → List LogEntry → ℕ → Option Response
respond (ok c) es end_offset =
    some (record { code = known c; entries = es; end_offset = end_offset })
respond _ es end_offset = none

abbrev pub answer : Option (Outcome (List LogEntry × ℕ × Option Error)) → Option Response
answer (some (ok (es, end_offset, e))) = respond (error_to_code e) es end_offset
answer _ = none

abbrev pub network : Network
network = record {
  connected = λ id. id == 3;
  node_read_entries =
      λ n id offset replay. answer (read_entries plain log_extent offset max_entries_size true);
}

first_attempt :
    (call : ℕ → Option Response) (left : ℕ) (r : Response)
    → call 0 ≡ some r
    → attempts call (suc left) 0 ≡ some r
unfolding attempts
first_attempt call left r h = rw (h, attempts) refl

pub network-IsServed : IsServed plain network log_extent
network-IsServed = record {
  connected = refl;
  answered = λ offset es end_offset e c h code.
      first_attempt _ 5 _ (ap answer h ∙ ap (λ o. respond o es end_offset) code);
}

pub one_answer : keeps_going plain 3 512 max_entries_size 0 (chunk ∷ []) ≡ true
unfolding should_write_value_to_lsm
one_answer = refl

abbrev pub stored_extent : Stored plain network
stored_extent = record {
  extent = log_extent;
  chunk = chunk;
  chunks = [];
  holds = log_extent-Holds;
  full = (refl, tt);
  on = one_answer;
  served = network-IsServed;
}

-- A replay that puts the entries into a list.
replay_log-read_stream_example :
    replay_log
      (λ e s. (e ∷ s, ok true))
      (length (read_stream plain network (stored_extent ∷ [])) + 1)
      network
      (3 ∷ [])
      0
      0
      true
      []
    ≡ some (
      run
          (λ e s. (e ∷ s, ok true))
          (λ e s. e ∷ s)
          (λ e s. refl)
          (read_stream plain network (stored_extent ∷ []))
          [],
      ok tt,
    )
replay_log-read_stream_example =
    replay_log-read_stream plain network (λ e s. (e ∷ s, ok true)) (λ e s. e ∷ s) (λ e s. refl)
      (3 ∷ []) stored_extent [] [] 0 [] refl tt tt

big_layout : entries_to_blocks plain (big ∷ []) ≡ ok (big_block ∷ [], 0, 0)
unfolding entries_to_blocks merge_small own_blocks own_block marshal_to ceil
    should_write_value_to_lsm
big_layout = refl

append_entries-IsAddressed_example :
    (placed : List LogEntry) × (append_entries plain
        (λ es. es)
        (answered (512 ∷ []) ∷ [])
        []
        (3 ∷ [])
        (big ∷ [])
      ≡ some (3 ∷ [], ok (placed, 3, 1536)))
    × (map bare placed ≡ map bare (big ∷ []))
    × All (IsAddressed plain log_extent 4096) placed
    × All (λ p. is_small p ≡ true) (take 0 (big ∷ []))
append_entries-IsAddressed_example =
    append_entries-IsAddressed plain (λ es. es) (answered (512 ∷ []) ∷ []) [] (3 ∷ []) (3 ∷ []) big
      [] big [] log_extent [] [] (big_block ∷ []) 0 0 4096 refl (writable big refl, tt) big_layout
      (unfold append in refl) log_extent-Holds (omega arith) (omega arith)
