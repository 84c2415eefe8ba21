-- ===== src/Tests/Buffers.antt =====
-- Buffers of two pieces, as an instance of what gelf.rs assumes of the crate `bytes`.
use yaffle.Base.{
  ℕ, zero, suc, ◌-◌, ◌≡◌, ◌≢◌, refl, sym, ap, ◌∙◌, [], ◌∷◌, ◌++◌, append_assoc, append-nil, Bytes,
  Result, ok, err, length, take, drop, arith, nat_eq, if◌then◌else◌,
}
use yaffle.Gelf.Crates.{Crates, BufLaws, GelfMessage}

pub record Pair : Type 0 where
  pub front : Bytes
  pub back : Bytes

abbrev pub all_of : Pair → Bytes
all_of b = b.front ++ b.back

abbrev pick : Bytes → Bytes → Bytes
pick [] r = r
pick (x ∷ f) r = x ∷ f

abbrev left : Bytes → Bytes → Bytes
left [] r = []
left (x ∷ f) r = r

abbrev slice : Pair → Bytes
slice b = pick b.front b.back

abbrev behind : Pair → Bytes
behind b = left b.front b.back

abbrev one_piece : Bytes → Pair
one_piece s = record { front = s; back = [] }

abbrev limited : Pair → ℕ → Pair
limited b n = record { front = take n (slice b); back = take (n - length (slice b)) (behind b) }

abbrev chained_to : Bytes → Pair → Pair → Pair
chained_to [] a b = b
chained_to (x ∷ t) a b = record { front = slice a; back = behind a ++ all_of b }

slice-behind : (f r : Bytes) → pick f r ++ left f r ≡ f ++ r
slice-behind [] r = append-nil r
slice-behind (x ∷ f) r = refl

slice_nonempty : (f r : Bytes) → pick f r ≡ [] → f ++ r ≡ []
slice_nonempty [] r h = h
slice_nonempty (x ∷ f) r h = cc h

sub-zero : (n : ℕ) → n - 0 ≡ n
sub-zero n = omega arith

zero-sub : (n : ℕ) → 0 - n ≡ 0
zero-sub n = omega arith

suc-sub-suc : (n m : ℕ) → suc n - suc m ≡ n - m
suc-sub-suc n m = omega arith

take-append : (n : ℕ) (s t : Bytes) → take n s ++ take (n - length s) t ≡ take n (s ++ t)
take-append zero [] t = ap (λ k. take k t) (sub-zero 0)
take-append (suc n) [] t = ap (λ k. take k t) (sub-zero (suc n))
take-append zero (x ∷ s) t = ap (λ k. take k t) (zero-sub (suc (length s)))
take-append (suc n) (x ∷ s) t =
    ap (λ k. x ∷ (take n s ++ take k t)) (suc-sub-suc n (length s)) ∙ ap (◌∷◌ x) (take-append n s t)

slice-limited :
    (n : ℕ) (f r : Bytes)
    → pick (take n (pick f r)) (take (n - length (pick f r)) (left f r)) ≡ take n (pick f r)
slice-limited zero [] [] = ap (λ k. take k []) (zero-sub 0)
slice-limited zero [] (y ∷ r) = ap (λ k. take k []) (zero-sub (suc (length r)))
slice-limited zero (x ∷ f) r = ap (λ k. take k r) (zero-sub (suc (length f)))
slice-limited (suc n) [] [] = ap (λ k. take k []) (sub-zero (suc n))
slice-limited (suc n) [] (y ∷ r) = refl
slice-limited (suc n) (x ∷ f) r = refl

pick-of_nonempty : (s r : Bytes) → s ≢ [] → pick s r ≡ s
pick-of_nonempty [] r h = absurd (h refl)
pick-of_nonempty (x ∷ s) r h = refl

slice-one_piece : (s : Bytes) → slice (one_piece s) ≡ s
slice-one_piece [] = refl
slice-one_piece (x ∷ s) = refl

all_of-chained : (a b : Pair) (s : Bytes) → all_of a ≡ s → all_of (chained_to s a b) ≡ s ++ all_of b
all_of-chained a b [] e = refl
all_of-chained a b (x ∷ t) e =
    sym (append_assoc (slice a) (behind a) (all_of b))
    ∙ ap (λ u. u ++ all_of b) (slice-behind a.front a.back ∙ e)

slice-chained :
    (a b : Pair) (s : Bytes)
    → all_of a ≡ s
    → slice (chained_to s a b) ≡ (if nat_eq (length s) 0 then slice b else slice a)
slice-chained a b [] e = refl
slice-chained a b (x ∷ t) e =
    pick-of_nonempty (slice a) (behind a ++ all_of b) (λ h. cc (e, slice_nonempty a.front a.back h))
    ∙ ground arith

pub pair_laws :
    BufLaws Pair
      (λ b. length (all_of b))
      slice
      (λ n b. one_piece (drop n (all_of b)))
      (λ n b. (take n (all_of b), one_piece (drop n (all_of b))))
      all_of
      one_piece
      limited
      (λ a b. chained_to (all_of a) a b)
pair_laws = record {
  remaining_lem = λ b. refl;
  bytes_front = λ b. (behind b, sym (slice-behind b.front b.back));
  bytes_nonempty = λ b. slice_nonempty b.front b.back;
  to_bytes-advance = λ n b h. append-nil (drop n (all_of b));
  copied = λ n b h. refl;
  left_over = λ n b h. append-nil (drop n (all_of b));
  to_bytes-from_bytes = append-nil;
  bytes-from_bytes = slice-one_piece;
  to_bytes-limit =
      λ b n. take-append n (slice b) (behind b) ∙ ap (take n) (slice-behind b.front b.back);
  bytes-limit = λ b n. slice-limited n b.front b.back;
  to_bytes-chain = λ a b. all_of-chained a b (all_of a) refl;
  bytes-chain = λ a b. slice-chained a b (all_of a) refl;
}

-- A reader delivers the bytes left; a text that begins with `{` is a message about those bytes, and
-- a decoder drops two bytes.
abbrev read_json : Bytes → Result ℕ (GelfMessage ℕ)
read_json [] = err 0
read_json (x ∷ s) =
    if nat_eq x b'{'
    then ok (record { version = []; host = []; short_message = s; other = [] })
    else err x

abbrev pub crates : Crates
crates = record {
  Buf = Pair;
  remaining = λ b. length (all_of b);
  bytes = slice;
  advance = λ n b. one_piece (drop n (all_of b));
  copy_to_slice = λ n b. (take n (all_of b), one_piece (drop n (all_of b)));
  to_bytes = all_of;
  from_bytes = one_piece;
  limit = limited;
  chain = λ a b. chained_to (all_of a) a b;
  laws = pair_laws;
  Reader = Bytes;
  JsonError = ℕ;
  Value = ℕ;
  reader = all_of;
  gz_decoder = drop 2;
  zlib_decoder = drop 2;
  from_reader = read_json;
  reader_lem = λ a b e. e;
}
