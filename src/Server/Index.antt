-- ===== src/Server/Index.antt =====
-- The index that the server makes sure of before it receives messages, and how it waits for it.
pub mod Wait
pub mod Made
use yaffle.Base.{
  ℕ, ◌/◌, ◌≡◌, refl, Bool, true, false, List, [], ◌∷◌, ◌++◌, Option, none, some, Bytes, Result, ok,
  err, codes, join, nat_eq, min, if◌then◌else◌,
}
use yaffle.Macros.Mapping.{FieldMapping}
use yaffle.Schema.{quickwit_mapping}

-- `enum MappingMode`
pub data MappingMode : Type 0 where
  strict lenient dynamic : MappingMode

pub record DocumentMapping : Type 0 where
  pub field_mappings : List FieldMapping
  pub mode : Option MappingMode
  pub tag_fields : List Bytes
  pub store_source : Bool
  pub timestamp_field : Bytes

pub record IndexCreateRequest : Type 0 where
  pub doc_mapping : DocumentMapping
  pub index_id : Bytes
  pub period : Bytes
  pub schedule : Bytes
  pub default_search_fields : List Bytes
  pub version : Bytes

unfoldable pub create_request : Bytes → IndexCreateRequest
create_request quickwit_index = record {
  doc_mapping = record {
    field_mappings = quickwit_mapping;
    mode = none;
    tag_fields = [];
    store_source = false;
    timestamp_field = codes "source_timestamp";
  };
  index_id = quickwit_index;
  period = codes "90 days";
  schedule = codes "daily";
  default_search_fields = codes "message" ∷ codes "full_message" ∷ [];
  version = codes "0.5";
}

pub data YaffleError (E : Type 0) : Type 0 where
  uri_build hyper_client json_serialize : E → YaffleError E
  create_index : (status : ℕ) → (body : Bytes) → YaffleError E

-- What comes back from Quickwit: a status, and the body when it is read.
pub record Response (E : Type 0) : Type 0 where
  pub status : ℕ
  pub body : Result E Bytes

pub data Request : Type 0 where
  get : (uri : Bytes) → Request
  post_json : (uri json : Bytes) → Request

-- The client and serde_json, as far as the index is concerned.
pub record Client : Type 1 where
  pub Error : Type 0
  pub parse_uri : Bytes → Result Error Bytes
  pub send : Request → Result Error (Response Error)
  pub to_string : IndexCreateRequest → Result Error Bytes
  -- `String::from_utf8_lossy`
  pub lossy : Bytes → Bytes

abbrev pub is_success : ℕ → Bool
is_success status = nat_eq (status / 100) 2

module _ (C : Client) where
  open C use {Error, parse_uri, send, to_string, lossy}

  abbrev pub Done : Type 0
  Done = List Request × Result (YaffleError Error) Unit

  abbrev body_read : ℕ → Result Error Bytes → Result (YaffleError Error) Unit
  body_read status (err e) = err (hyper_client e)
  body_read status (ok b) = err (create_index status (lossy b))

  abbrev created : Result Error (Response Error) → Result (YaffleError Error) Unit
  created (err e) = err (hyper_client e)
  created (ok r) = if is_success r.status then ok tt else body_read r.status r.body

  abbrev post : Bytes → Result Error Bytes → Result Error Bytes → Done
  post uri (err e) json = ([], err (uri_build e))
  post uri (ok u) (err e) = ([], err (json_serialize e))
  post uri (ok u) (ok json) = (post_json u json ∷ [], created (send (post_json u json)))

  abbrev pub create_uri : Bytes → Bytes
  create_uri quickwit_url = join b'/' (quickwit_url ∷ codes "api/v1/indexes" ∷ [])

  abbrev pub describe_uri : Bytes → Bytes → Bytes
  describe_uri quickwit_url quickwit_index =
      join b'/' (quickwit_url ∷ codes "api/v1/indexes" ∷ quickwit_index ∷ codes "describe" ∷ [])

  -- if the index is described, or not found
  abbrev described : Bytes → Bytes → Result Error (Response Error) → Done
  described url index (err e) = ([], err (hyper_client e))
  described url index (ok r) =
      if nat_eq r.status 404
      then post (create_uri url) (parse_uri (create_uri url)) (to_string (create_request index))
      else ([], ok tt)

  abbrev after_get : Request → Done → Done
  after_get r (l, d) = (r ∷ l, d)

  abbrev ask : Bytes → Bytes → Result Error Bytes → Done
  ask url index (err e) = ([], err (uri_build e))
  ask url index (ok u) = after_get (get u) (described url index (send (get u)))

  -- `get_or_create_index`: the requests, in order, and what it returns
  unfoldable pub get_or_create_index : Bytes → Bytes → Done
  unfolding create_request
  get_or_create_index quickwit_url quickwit_index =
      ask quickwit_url quickwit_index (parse_uri (describe_uri quickwit_url quickwit_index))
