-- ===== src/Extent/Device.antt =====
-- os.File and io.ReadFull, as extent/extent.go uses them. A file is the list of its bytes.
use autumn.Prelude.{
  ℕ, ◌-◌, ◌≤◌, ◌≡◌, sym, ap, ◌∙◌, Bool, true, false, Option, none, some, List, [], ◌++◌, arith, leb,
  ◌==◌, if◌then◌else◌, length, take, drop, replicate, take-append, drop-append, length-append,
  length-take_le, length-replicate, append-nil,
}
use autumn.Prelude.Outcome.{Outcome, ok, err, eof, unexpected_eof}

-- io.ReadFull: the bytes read, and the bytes that follow.
unfoldable pub read_full : ℕ → List ℕ → Outcome (List ℕ × List ℕ)
read_full n bs =
    if leb n (length bs)
    then ok (take n bs, drop n bs)
    else if length bs == 0
    then err eof
    else err unexpected_eof

-- What the device does with one write: `none` takes all of it, `some n` fails after n bytes.
abbrev pub Fault : Type 0
Fault = Option ℕ

-- A write to a file opened with O_APPEND: the new contents, and whether it went well.
unfoldable pub write : List ℕ → List ℕ → Fault → List ℕ × Bool
write file bs none = (file ++ bs, true)
write file bs (some n) = (file ++ take n bs, false)

-- ftruncate: cuts the file, or fills it up with zeros.
unfoldable pub truncate : ℕ → List ℕ → List ℕ
truncate n file = take n file ++ replicate (n - length file) 0

pub read_full-append :
    (n : ℕ) (xs ys : List ℕ) → n ≡ length xs → read_full n (xs ++ ys) ≡ ok (xs, ys)
unfolding read_full
read_full-append n xs ys h =
    ground (arith, length-append xs ys, take-append xs ys n, drop-append xs ys n)

pub truncate-append : (n : ℕ) (xs ys : List ℕ) → n ≡ length xs → truncate n (xs ++ ys) ≡ xs
unfolding truncate
truncate-append n xs ys h =
    let none_missing : n - length (xs ++ ys) ≡ 0 = omega (arith, length-append xs ys) in
    ap (λ k. take n (xs ++ ys) ++ replicate k 0) none_missing
    ∙ append-nil (take n (xs ++ ys))
    ∙ take-append xs ys n h

pub truncate_all : (n : ℕ) (xs : List ℕ) → n ≡ length xs → truncate n xs ≡ xs
truncate_all n xs h = ap (truncate n) (sym (append-nil xs)) ∙ truncate-append n xs [] h

pub length-truncate : (n : ℕ) (xs : List ℕ) → n ≤ length xs → length (truncate n xs) ≡ n
unfolding truncate
length-truncate n xs h = omega (
  arith,
  length-append (take n xs) (replicate (n - length xs) 0),
  length-take_le n xs h,
  length-replicate {A = ℕ} (n - length xs) 0,
)
