-- ===== src/Server/Index/Made.antt =====
-- When the server goes on, and with which requests.
use yaffle.Base.{
  ◌≡◌, ◌⊎◌, inl, inr, true, false, List, [], ◌∷◌, Bytes, ok, nat_eq, Bool-cases, Result-cases,
  arith,
}
use yaffle.Server.Index.{
  Client, Response, Request, get, post_json, get_or_create_index, create_request, create_uri,
  describe_uri, is_success,
}

module _ (C : Client) where
  open C use {Error, parse_uri, send, to_string}

  -- the requests `l` of a run that found an index, or made one
  abbrev pub FoundIndex : Bytes → Response Error → List Request → Type 0
  FoundIndex u r l = (nat_eq r.status 404 ≡ false) × (l ≡ get u ∷ [])

  abbrev pub MadeIndex : Bytes → Bytes → Bytes → Response Error → List Request → Type 0
  MadeIndex url index u r l =
      (nat_eq r.status 404 ≡ true)
      × (p : Bytes) × (j : Bytes) × (q : Response Error) × (parse_uri (create_uri C url) ≡ ok p)
      × (to_string (create_request index) ≡ ok j)
      × (send (post_json p j) ≡ ok q)
      × (is_success q.status ≡ true)
      × (l ≡ get u ∷ post_json p j ∷ [])

  -- `get_or_create_index` returns `Ok` only behind an answer to the description: with a status other
  -- than 404 it has sent nothing else, and with 404 it has posted the request that creates the index,
  -- and had a status of success for it.
  pub get_or_create_index-ok :
      (url index : Bytes) (l : List Request)
      → get_or_create_index C url index ≡ (l, ok tt)
      → (u : Bytes) × (r : Response Error) × (parse_uri (describe_uri C url index) ≡ ok u)
        × (send (get u) ≡ ok r)
        × (FoundIndex u r l ⊎ MadeIndex url index u r l)
  unfolding get_or_create_index
  get_or_create_index-ok url index l e =
      elim (Result-cases (parse_uri (describe_uri C url index))) [
        | inl (x, bad) ↦ absurd (ground (arith, bad))
        | inr (u, asked) ↦ elim (Result-cases (send (get u))) [
          | inl (x, bad) ↦ absurd (ground (arith, asked, bad))
          | inr (r, answer) ↦ elim (Bool-cases (nat_eq r.status 404)) [
            | inr other ↦ (u, r, asked, answer, inl (other, ground (arith, asked, answer)))
            | inl missing ↦ elim (Result-cases (parse_uri (create_uri C url))) [
              | inl (x, bad) ↦ absurd (ground (arith, asked, answer, bad))
              | inr (p, place) ↦ elim (Result-cases (to_string (create_request index))) [
                | inl (x, bad) ↦ absurd (ground (arith, asked, answer, place, bad))
                | inr (j, json) ↦ elim (Result-cases (send (post_json p j))) [
                  | inl (x, bad) ↦ absurd (ground (arith, asked, answer, place, json, bad))
                  | inr (q, reply) ↦ elim (Bool-cases (is_success q.status)) [
                    | inl passes ↦ (
                      u,
                      r,
                      asked,
                      answer,
                      inr (
                        missing,
                        p,
                        j,
                        q,
                        place,
                        json,
                        reply,
                        passes,
                        ground (arith, asked, answer, place, json, reply),
                      ),
                    )
                    | inr fails ↦
                        absurd
                          (ground (arith, asked, answer, place, json, reply, Result-cases q.body))
                  ]
                ]
              ]
            ]
          ]
        ]
      ]
