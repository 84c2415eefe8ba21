-- ===== src/Syslog/Nom.antt =====
-- What syslog.rs calls of the crate `nom`, with the documented behaviour of each combinator on what
-- is left and what was read. The errors that nom builds are never looked at.
pub mod Reference
use yaffle.Base.{
  ℕ, ◌≡◌, Bool, Option, none, some, List, [], ◌∷◌, ◌++◌, Bytes, Result, option_map, within, ◌||◌,
  nat_eq,
}
use Reference.{
  Found, seq, read_tag, read_char, read_while1, read_while_m_n, read_until, read_opt, read_res,
  first_of_all, consumed,
}

-- `nom::IResult<&[u8], A>`
pub data IResult (E A : Type 0) : Type 0 where
  done : (rest : Bytes) (read : A) → IResult E A
  error : E → IResult E A

-- what a parser leaves and what it reads
abbrev pub outcome : {E A : Type 0} → IResult E A → Found A
outcome (done rest a) = some (rest, a)
outcome (error e) = none

abbrev pub Parser : Type 0 → Type 0 → Type 0
Parser E A = Bytes → IResult E A

abbrev pub outcomes : {E A : Type 0} → List (Parser E A) → Bytes → List (Found A)
outcomes [] i = []
outcomes (p ∷ ps) i = outcome (p i) ∷ outcomes ps i

pub record Nom : Type 1 where
  pub Error : Type 0
  pub is_digit : ℕ → Bool
  pub is_alphanumeric : ℕ → Bool
  pub is_space : ℕ → Bool
  pub char : ℕ → Parser Error ℕ
  pub tag : Bytes → Parser Error Bytes
  pub digit1 : Parser Error Bytes
  pub take_until : Bytes → Parser Error Bytes
  pub take_while1 : (ℕ → Bool) → Parser Error Bytes
  pub take_while_m_n : ℕ → ℕ → (ℕ → Bool) → Parser Error Bytes
  pub rest : Parser Error Bytes
  pub map : (A B : Type 0) → Parser Error A → (A → B) → Parser Error B
  pub map_res : (X A B : Type 0) → Parser Error A → (A → Result X B) → Parser Error B
  pub opt : (A : Type 0) → Parser Error A → Parser Error (Option A)
  pub alt : (A : Type 0) → List (Parser Error A) → Parser Error A
  pub value : (A B : Type 0) → A → Parser Error B → Parser Error A
  pub recognize : (A : Type 0) → Parser Error A → Parser Error Bytes
  pub delimited :
      (A B C : Type 0) → Parser Error A → Parser Error B → Parser Error C → Parser Error B
  pub preceded : (A B : Type 0) → Parser Error A → Parser Error B → Parser Error B
  pub terminated : (A B : Type 0) → Parser Error A → Parser Error B → Parser Error A
  pub separated_pair :
      (A B C : Type 0) → Parser Error A → Parser Error B → Parser Error C → Parser Error (A × C)
  pub tuple2 : (A B : Type 0) → Parser Error A → Parser Error B → Parser Error (A × B)
  pub tuple3 :
      (A B C : Type 0) → Parser Error A → Parser Error B → Parser Error C → Parser Error (A × B × C)
  pub tuple5 :
      (A B C D F : Type 0)
      → Parser Error A
      → Parser Error B
      → Parser Error C
      → Parser Error D
      → Parser Error F
      → Parser Error (A × B × C × D × F)
  pub is_digit_lem : (c : ℕ) → is_digit c ≡ within b'0' b'9' c
  pub is_alphanumeric_lem :
      (c : ℕ) → is_alphanumeric c ≡ (within b'0' b'9' c || within b'A' b'Z' c || within b'a' b'z' c)
  pub is_space_lem : (c : ℕ) → is_space c ≡ (nat_eq c b' ' || nat_eq c b'\t')
  pub outcome-char : (c : ℕ) (i : Bytes) → outcome (char c i) ≡ read_char c i
  pub outcome-tag : (t i : Bytes) → outcome (tag t i) ≡ read_tag t i
  pub outcome-digit1 : (i : Bytes) → outcome (digit1 i) ≡ read_while1 (within b'0' b'9') i
  pub outcome-take_until : (t i : Bytes) → outcome (take_until t i) ≡ read_until t i
  pub outcome-take_while1 : (p : ℕ → Bool) (i : Bytes) → outcome (take_while1 p i) ≡ read_while1 p i
  pub outcome-take_while_m_n :
      (lo hi : ℕ) (p : ℕ → Bool) (i : Bytes)
      → outcome (take_while_m_n lo hi p i) ≡ read_while_m_n lo hi p i
  pub outcome-rest : (i : Bytes) → outcome (rest i) ≡ some ([], i)
  pub outcome-map :
      (A B : Type 0) (p : Parser Error A) (f : A → B) (i : Bytes)
      → outcome (map A B p f i) ≡ seq (outcome (p i)) (λ r a. some (r, f a))
  pub outcome-map_res :
      (X A B : Type 0) (p : Parser Error A) (f : A → Result X B) (i : Bytes)
      → outcome (map_res X A B p f i) ≡ seq (outcome (p i)) (λ r a. read_res r (f a))
  pub outcome-opt :
      (A : Type 0) (p : Parser Error A) (i : Bytes)
      → outcome (opt A p i) ≡ some (read_opt i (outcome (p i)))
  pub outcome-alt :
      (A : Type 0) (ps : List (Parser Error A)) (i : Bytes)
      → outcome (alt A ps i) ≡ first_of_all (outcomes ps i)
  pub outcome-value :
      (A B : Type 0) (a : A) (p : Parser Error B) (i : Bytes)
      → outcome (value A B a p i) ≡ seq (outcome (p i)) (λ r b. some (r, a))
  pub outcome-recognize :
      (A : Type 0) (p : Parser Error A) (i : Bytes)
      → outcome (recognize A p i) ≡ seq (outcome (p i)) (λ r a. some (r, consumed i r))
  pub outcome-delimited :
      (A B C : Type 0) (p : Parser Error A) (q : Parser Error B) (s : Parser Error C) (i : Bytes)
      → outcome (delimited A B C p q s i)
        ≡ seq
            (outcome (p i))
            (λ r a. seq (outcome (q r)) (λ r' b. seq (outcome (s r')) (λ r'' c. some (r'', b))))
  pub outcome-preceded :
      (A B : Type 0) (p : Parser Error A) (q : Parser Error B) (i : Bytes)
      → outcome (preceded A B p q i) ≡ seq (outcome (p i)) (λ r a. outcome (q r))
  pub outcome-terminated :
      (A B : Type 0) (p : Parser Error A) (q : Parser Error B) (i : Bytes)
      → outcome (terminated A B p q i)
        ≡ seq (outcome (p i)) (λ r a. seq (outcome (q r)) (λ r' b. some (r', a)))
  pub outcome-separated_pair :
      (A B C : Type 0) (p : Parser Error A) (q : Parser Error B) (s : Parser Error C) (i : Bytes)
      → outcome (separated_pair A B C p q s i)
        ≡ seq (outcome (p i)) (λ r a.
          seq (outcome (q r)) (λ r' b. seq (outcome (s r')) (λ r'' c. some (r'', (a, c)))))
  pub outcome-tuple2 :
      (A B : Type 0) (p : Parser Error A) (q : Parser Error B) (i : Bytes)
      → outcome (tuple2 A B p q i)
        ≡ seq (outcome (p i)) (λ r a. seq (outcome (q r)) (λ r' b. some (r', (a, b))))
  pub outcome-tuple3 :
      (A B C : Type 0) (p : Parser Error A) (q : Parser Error B) (s : Parser Error C) (i : Bytes)
      → outcome (tuple3 A B C p q s i)
        ≡ seq (outcome (p i)) (λ r a.
          seq (outcome (q r)) (λ r' b. seq (outcome (s r')) (λ r'' c. some (r'', (a, b, c)))))
  pub outcome-tuple5 :
      (A B C D F : Type 0) (p : Parser Error A) (q : Parser Error B) (s : Parser Error C)
      (t : Parser Error D) (u : Parser Error F) (i : Bytes)
      → outcome (tuple5 A B C D F p q s t u i)
        ≡ seq (outcome (p i)) (λ r1 a. seq (outcome (q r1)) (λ r2 b. seq (outcome (s r2)) (λ r3 c.
          seq
            (outcome (t r3))
            (λ r4 d. seq (outcome (u r4)) (λ r5 f. some (r5, (a, b, c, d, f)))))))
