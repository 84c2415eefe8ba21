-- ===== src/Syslog/Parsers/Names.antt =====
-- Host name, identifier and process id, as their parsers read them.
use yaffle.Base.{
  ℕ, ◌≡◌, refl, ◌∙◌, true, false, ◌∷◌, ◌++◌, Option, none, some, Bytes, all, arith, leb, nat_eq,
  if◌then◌else◌, codes,
}
use yaffle.Syslog.Nom.{Nom, outcome}
use yaffle.Syslog.Nom.Reference.{seq, read_tag, read_while1, read_opt, read_res}
use yaffle.Syslog.Number.{is_dec, decimal, parse_uint, parse_uint_lem, u64_max}
use yaffle.Syslog.Parsers.{
  prio_and_facility, hostname, is_host_char, identifier_and_pid, is_ident_char, utf8,
}
use yaffle.Syslog.Parsers.Spans.{span-append, utf8-digits}

module _ (N : Nom) where
  open N use {
    is_digit, is_alphanumeric, is_space, is_alphanumeric_lem, is_space_lem, outcome-map,
    outcome-map_res, outcome-opt, outcome-alt, outcome-preceded, outcome-terminated, outcome-tag,
    outcome-digit1, outcome-take_while1, outcome-take_until, outcome-tuple2,
  }

  -- where the timestamp is looked for: behind the priority, if there is one
  abbrev pub after_priority : Bytes → Bytes
  after_priority i = (read_opt i (outcome (prio_and_facility N i))).0

  pub outcome-hostname :
      (i : Bytes)
      → outcome (hostname N i)
        ≡ seq
            (read_while1 (is_host_char N) i)
            (λ r h. seq (read_tag (codes " ") r) (λ r' s. some (r', h)))
  unfolding hostname
  outcome-hostname i = simp (outcome-terminated, outcome-take_while1, outcome-tag)

  -- A row of ASCII letters, digits and dots, up to another byte, is a host name exactly if that byte
  -- is a blank.
  pub hostname-row :
      (x : ℕ) (h : Bytes) (c : ℕ) (r : Bytes)
      → all (is_host_char N) (x ∷ h) ≡ true
      → is_host_char N c ≡ false
      → outcome (hostname N ((x ∷ h) ++ (c ∷ r)))
        ≡ (if nat_eq c b' ' then some (r, x ∷ h) else none)
  hostname-row x h c r row stop =
      outcome-hostname _ ∙ rw (span-append (is_host_char N) (x ∷ h) c r row stop) (ground arith)

  pub blank_stops_host : is_host_char N b' ' ≡ false
  unfolding is_host_char
  blank_stops_host = rw is_alphanumeric_lem

  pub blank_stops_ident : is_ident_char N b' ' ≡ false
  unfolding is_ident_char
  blank_stops_ident = rw is_space_lem

  unfoldable pub pid_part : Bytes → Bytes × Option ℕ
  pid_part i = read_opt i (
      seq
        (seq
          (seq (read_tag (codes "[") i) (λ r a.
            seq (read_while1 is_dec r)
              (λ r' b. seq (read_tag (codes "]") r') (λ r'' c. some (r'', b)))))
          (λ r a. read_res r (utf8 a)))
        (λ r a. read_res r (parse_uint u64_max a)))

  pub outcome-identifier :
      (i : Bytes)
      → outcome (identifier_and_pid N i)
        ≡ seq
            (seq
              (read_while1 (is_ident_char N) i)
              (λ r a. seq (some (pid_part r)) (λ r' b. some (r', (a, b)))))
            (λ r a. seq (read_tag (codes ": ") r) (λ r' b. some (r', a)))
  unfolding identifier_and_pid pid_part
  outcome-identifier i = simp (
    outcome-terminated, outcome-tuple2, outcome-opt, outcome-map_res, outcome-preceded, outcome-tag,
    outcome-digit1, outcome-take_while1,
  )

  -- `ident[pid]: text`, in the characters of identifiers and with a number that fits a `u64`, gives
  -- the identifier and the number, and leaves the text.
  pub identifier-pid :
      (x : ℕ) (s : Bytes) (d : ℕ) (ds msg : Bytes)
      → all (is_ident_char N) (x ∷ s) ≡ true
      → all is_dec (d ∷ ds) ≡ true
      → leb (decimal (d ∷ ds)) u64_max ≡ true
      → outcome
          (identifier_and_pid N ((x ∷ s) ++ (b'[' ∷ ((d ∷ ds) ++ (b']' ∷ b':' ∷ b' ' ∷ msg)))))
        ≡ some (msg, (x ∷ s, some (decimal (d ∷ ds))))
  unfolding pid_part
  identifier-pid x s d ds msg row digits fits =
      outcome-identifier _
      ∙ rw (span-append (is_ident_char N) (x ∷ s) b'[' _ row (unfold is_ident_char in refl)) (
          rw (span-append is_dec (d ∷ ds) b']' _ digits refl)
            (rw (utf8-digits (d ∷ ds) digits) (rw (parse_uint_lem u64_max d ds digits) (rw fits))))

  -- `ident: text`
  pub identifier-plain :
      (x : ℕ) (s msg : Bytes)
      → all (is_ident_char N) (x ∷ s) ≡ true
      → outcome (identifier_and_pid N ((x ∷ s) ++ (b':' ∷ b' ' ∷ msg))) ≡ some (msg, (x ∷ s, none))
  unfolding pid_part
  identifier-plain x s msg row =
      outcome-identifier _
      ∙ rw (span-append (is_ident_char N) (x ∷ s) b':' _ row (unfold is_ident_char in refl)) refl
