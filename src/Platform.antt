-- ===== src/Platform.antt =====
-- What the program uses of Go's standard library and of its third-party packages. A definition that
-- calls them takes a `Platform` as its parameter; nothing is assumed of one unless a theorem says so.
use Prim.Native.Char.{code}
use Prim.Native.String.{String}
use fikua_lab_issuer.Prelude.{
  Bool, List, Option, String-eq, [], if◌then◌else◌, ltb, some, ℕ, ◌%◌, ◌++◌, ◌+◌, ◌/◌, ◌∷◌,
}
use fikua_lab_issuer.Prelude.Dict.{Dict, get}
use fikua_lab_issuer.Result.Exec.{Result}
use fikua_lab_issuer.Prelude.Int.{ℤ, ℤ-eq}

-- A time.Time: nanoseconds since Go's zero time, the start of year 1. Earlier times have no value.
abbrev pub Time : Type 0
Time = ℕ

abbrev pub second : ℕ
second = 1000000000

-- The UTF-8 bytes of a text, which Go's `len` and indexing see. A Go string that is not valid UTF-8
-- is outside the model.
abbrev utf8 : ℕ → List ℕ
utf8 c =
    if ltb c 0x80
    then c ∷ []
    else if ltb c 0x800
    then (0xc0 + c / 0x40) ∷ (0x80 + c % 0x40) ∷ []
    else if ltb c 0x10000
    then (0xe0 + c / 0x1000) ∷ (0x80 + c / 0x40 % 0x40) ∷ (0x80 + c % 0x40) ∷ []
    else (0xf0 + c / 0x40000)
      ∷ (0x80 + c / 0x1000 % 0x40)
      ∷ (0x80 + c / 0x40 % 0x40)
      ∷ (0x80 + c % 0x40)
      ∷ []

unfoldable pub bytes : String → List ℕ
bytes String.[] = []
bytes (String.◌∷◌ c s) = utf8 (code c) ++ bytes s

-- A JSON value, Go's `any`. A number that is decoded is the 64 bits of its float64; an integer is
-- one that the program writes.
mutual
  pub data Json : Type 0 where
    null : Json
    bool : Bool → Json
    num : ℕ → Json
    int : ℤ → Json
    str : String → Json
    array : Items → Json
    object : Members → Json

  pub data Items : Type 0 where
    no_items : Items
    item : Json → Items → Items

  pub data Members : Type 0 where
    no_members : Members
    member : String → Json → Members → Members

-- A Go value as cbor.Marshal takes it: `struct_of` is a struct, whose fields keep their order, `map_of`
-- a map, `raw_message` bytes that are encoded already and `any_value` a value that JSON has too.
mutual
  pub data Cbor : Type 0 where
    integer : ℤ → Cbor
    text_string : String → Cbor
    byte_string : List ℕ → Cbor
    raw_message : List ℕ → Cbor
    any_value : Json → Cbor
    tagged : ℕ → Cbor → Cbor
    sequence : Elements → Cbor
    struct_of : Pairs → Cbor
    map_of : Pairs → Cbor

  pub data Elements : Type 0 where
    no_elements : Elements
    member_of : Cbor → Elements → Elements

  pub data Pairs : Type 0 where
    no_pairs : Pairs
    entry : Cbor → Cbor → Pairs → Pairs

-- A map[string]any as a dictionary.
unfoldable pub members : Members → Dict String Json
members no_members = []
members (member k v ms) = (k, v) ∷ members ms

-- `v, _ := m[key].(string)`
unfoldable pub string_member : String → Dict String Json → String
string_member key m = elim (get key m) [ some (str s) ↦ s | _ ↦ "" ]

-- The protected headers of one JWS signature, as jwx reads them.
pub record Headers (Key : Type 0) : Type 0 where
  pub typ : Option String
  pub algorithm : Option String
  pub jwk : Option Key
  pub has_x5c : Bool
  pub has_kid : Bool

-- The claims of a JWT, as jwx reads them: `claim` is a claim that is a string.
pub record Token : Type 0 where
  pub claim : String → Option String
  pub issued_at : Option Time
  pub audience : List String
  pub jwt_id : Option String
  pub cnf : Option (Dict String Json)

-- net/url's URL: the two parts that the program clears, and the others.
pub record Url : Type 0 where
  pub raw_query : String
  pub fragment : String
  pub others : String

-- The protected headers that the program sets on a JWS that it signs.
pub record SetHeaders : Type 0 where
  pub typ : String
  pub kid : String
  pub x5c : List String

pub record Platform (Key KeySet : Type 0) : Type 0 where
  -- jws.Parse: the headers of the signatures
  pub parse_jws : String → Result (List (Headers Key))
  -- jwt.Parse with WithKey(ES256, key) and WithValidate(false)
  pub parse_with_key : Key → String → Option Token
  -- jwt.Parse with WithKeySet, WithValidate(true), WithIssuer and WithAudience, at a time
  pub parse_with_key_set : KeySet → String → String → Time → String → Option Token
  -- jwt.Parse with WithVerify(false) and WithValidate(false)
  pub parse_unverified : String → Option Token
  -- key.Has("d")
  pub has_private : Key → Bool
  -- key.Thumbprint(SHA256)
  pub thumbprint : Key → Result (List ℕ)
  pub sha256 : List ℕ → List ℕ
  -- base64.RawURLEncoding.EncodeToString
  pub base64url : List ℕ → String
  -- url.Parse and URL.String
  pub parse_url : String → Option Url
  pub url_string : Url → String
  -- base64.StdEncoding.EncodeToString
  pub base64 : List ℕ → String
  -- json.Marshal of a value, and json.Unmarshal into a map[string]any
  pub marshal_json : Json → Result String
  pub unmarshal_json : String → Result Members
  -- zlib at the highest level: the compressed bytes
  pub zlib : List ℕ → Result (List ℕ)
  -- cert.Chain.AddString
  pub add_certificate : String → Result (Unit {0})
  -- jwt.Builder.Build, and jwt.Sign with ES256 and the issuer's key
  pub build_jwt : Dict String Json → Result String
  pub sign_jwt : SetHeaders → String → Result String
  -- key.PublicKey, and json.Marshal of a key
  pub public_key : Key → Result Key
  pub marshal_key : Key → Result String
  -- the coordinates of a jwk.ECDSAPublicKey, each if it is present
  pub ec_point : Key → Option (Option (List ℕ) × Option (List ℕ))
  -- strings.ToLower and strings.ToUpper; and `strings.ToUpper(w[:1]) + w[1:]` of a text whose first
  -- character has more than one byte
  pub to_lower : String → String
  pub to_upper : String → String
  pub upper_first_byte : String → String
  -- fmt.Sprintf("%T", key)
  pub type_name : Key → String
  -- fmt.Sprintf("%v", value)
  pub format_value : Json → String
  -- time.Time.AddDate of a number of days, and the format of a tdate
  pub add_days : ℕ → Time → Time
  pub format_tdate : Time → String
  -- cbor.Marshal
  pub marshal_cbor : Cbor → Result (List ℕ)
  -- crypto.Signer.Sign of a SHA-256 hash by the issuer's key, and asn1.Unmarshal of two integers
  pub sign_hash : List ℕ → Result (List ℕ)
  pub parse_signature : List ℕ → Result (ℤ × ℤ)
