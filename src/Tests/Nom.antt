-- ===== src/Tests/Nom.antt =====
-- Nom's combinators and chrono's functions as concrete programs: the parsers are the readers that
-- the documentation describes, with 0 as the only error.
use yaffle.Base.{ℕ, ◌≡◌, refl, ◌||◌, none, some, [], ◌∷◌, Bytes, Result, ok, err, within, nat_eq}
use yaffle.Syslog.Nom.{Nom, IResult, done, error, outcome, outcomes}
use yaffle.Syslog.Nom.Reference.{
  Found, seq, read_tag, read_char, read_while1, read_while_m_n, read_until, read_opt, read_res,
  first_of_all, consumed,
}
use yaffle.Syslog.Chrono.{Chrono, single}

abbrev pub give : {A : Type 0} → Found A → IResult ℕ A
give none = error 0
give (some (r, a)) = done r a

pub outcome-give : {A : Type 0} (f : Found A) → outcome (give f) ≡ f
outcome-give none = refl
outcome-give (some (r, a)) = refl

abbrev pub readers : Nom
readers = record {
  Error = ℕ;
  is_digit = within b'0' b'9';
  is_alphanumeric = λ c. within b'0' b'9' c || within b'A' b'Z' c || within b'a' b'z' c;
  is_space = λ c. nat_eq c b' ' || nat_eq c b'\t';
  char = λ c i. give (read_char c i);
  tag = λ t i. give (read_tag t i);
  digit1 = λ i. give (read_while1 (within b'0' b'9') i);
  take_until = λ t i. give (read_until t i);
  take_while1 = λ p i. give (read_while1 p i);
  take_while_m_n = λ lo hi p i. give (read_while_m_n lo hi p i);
  rest = λ i. done [] i;
  map = λ A B p f i. give (seq (outcome (p i)) (λ r a. some (r, f a)));
  map_res = λ X A B p f i. give (seq (outcome (p i)) (λ r a. read_res r (f a)));
  opt = λ A p i. give (some (read_opt i (outcome (p i))));
  alt = λ A ps i. give (first_of_all (outcomes ps i));
  value = λ A B a p i. give (seq (outcome (p i)) (λ r b. some (r, a)));
  recognize = λ A p i. give (seq (outcome (p i)) (λ r a. some (r, consumed i r)));
  delimited = λ A B C p q s i. give (
      seq (outcome (p i))
        (λ r a. seq (outcome (q r)) (λ r' b. seq (outcome (s r')) (λ r'' c. some (r'', b)))));
  preceded = λ A B p q i. give (seq (outcome (p i)) (λ r a. outcome (q r)));
  terminated =
      λ A B p q i. give (seq (outcome (p i)) (λ r a. seq (outcome (q r)) (λ r' b. some (r', a))));
  separated_pair = λ A B C p q s i. give (
      seq (outcome (p i))
        (λ r a. seq (outcome (q r)) (λ r' b. seq (outcome (s r')) (λ r'' c. some (r'', (a, c))))));
  tuple2 = λ A B p q i.
      give (seq (outcome (p i)) (λ r a. seq (outcome (q r)) (λ r' b. some (r', (a, b)))));
  tuple3 = λ A B C p q s i. give (
      seq (outcome (p i)) (λ r a.
        seq (outcome (q r)) (λ r' b. seq (outcome (s r')) (λ r'' c. some (r'', (a, b, c))))));
  tuple5 = λ A B C D F p q s t u i. give (
      seq (outcome (p i)) (λ r1 a. seq (outcome (q r1)) (λ r2 b. seq (outcome (s r2)) (λ r3 c.
        seq (outcome (t r3))
          (λ r4 d. seq (outcome (u r4)) (λ r5 f. some (r5, (a, b, c, d, f))))))));
  is_digit_lem = λ c. refl;
  is_alphanumeric_lem = λ c. refl;
  is_space_lem = λ c. refl;
  outcome-char = λ c i. outcome-give _;
  outcome-tag = λ t i. outcome-give _;
  outcome-digit1 = λ i. outcome-give _;
  outcome-take_until = λ t i. outcome-give _;
  outcome-take_while1 = λ p i. outcome-give _;
  outcome-take_while_m_n = λ lo hi p i. outcome-give _;
  outcome-rest = λ i. refl;
  outcome-map = λ A B p f i. outcome-give _;
  outcome-map_res = λ X A B p f i. outcome-give _;
  outcome-opt = λ A p i. outcome-give _;
  outcome-alt = λ A ps i. outcome-give _;
  outcome-value = λ A B a p i. outcome-give _;
  outcome-recognize = λ A p i. outcome-give _;
  outcome-delimited = λ A B C p q s i. outcome-give _;
  outcome-preceded = λ A B p q i. outcome-give _;
  outcome-terminated = λ A B p q i. outcome-give _;
  outcome-separated_pair = λ A B C p q s i. outcome-give _;
  outcome-tuple2 = λ A B p q i. outcome-give _;
  outcome-tuple3 = λ A B C p q s i. outcome-give _;
  outcome-tuple5 = λ A B C D F p q s t u i. outcome-give _;
}

-- A time is its text, a clock's time its year.
abbrev pub nonempty_time : Bytes → Result ℕ Bytes
nonempty_time [] = err 0
nonempty_time (c ∷ s) = ok (c ∷ s)

abbrev pub calendar : Chrono
calendar = record {
  Time = Bytes;
  LocalTime = ℕ;
  NaiveDate = ℕ × ℕ × ℕ;
  NaiveTime = Bytes;
  NaiveDateTime = (ℕ × ℕ × ℕ) × Bytes;
  ChronoError = ℕ;
  parse_from_rfc3339 = nonempty_time;
  parse_time = λ s format. nonempty_time s;
  from_ymd_opt = λ y m d. some (y, m, d);
  at_time = λ d t. (d, t);
  from_local_datetime = λ dt. single dt.0.0;
  year = λ t. t;
  with_own_offset = λ y. y ∷ [];
}
