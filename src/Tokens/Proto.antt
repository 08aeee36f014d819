-- ===== src/Tokens/Proto.antt =====
-- The messages of src/tokens/proto.rs, the chains of src/blockchain.rs that they belong to, and the
-- tests of `TokenCache::try_parse` (src/tokens/parser.rs). The decoding of JSON text by `serde_json`
-- and of decimals by `nintypes` are parameters.
use bel_20_indexer.Prelude.{
  ℕ, Bool, true, false, ◌&&◌, ◌||◌, not, none, some, Option, List, [], ◌∷◌, ◌==◌, nat_eq, list_eq,
  if◌then◌else◌, leb, ltb,
}
use bel_20_indexer.Env.{Env, max_units}
use bel_20_indexer.Tokens.Types.{OriginalTokenTick, MintProtoWrapper}

pub data Blockchain : Type 0 where
  dogecoin bellscoin pepecoin litecoin : Blockchain

pub record DeployProtoWrapper (F : Type 0) : Type 0 where
  pub tick : OriginalTokenTick
  pub max : F
  pub lim : Option F
  pub dec : ℕ

pub data MintProto (F : Type 0) : Type 0 where
  bel20 drc20 prc20 ltc20 : MintProtoWrapper F → MintProto F

pub data DeployProto (F : Type 0) : Type 0 where
  bel20 drc20 prc20 ltc20 : DeployProtoWrapper F → DeployProto F

pub data TransferProto (F : Type 0) : Type 0 where
  bel20 drc20 prc20 ltc20 : MintProtoWrapper F → TransferProto F

pub data Brc4 (F : Type 0) : Type 0 where
  mint : MintProto F → Brc4 F
  deploy : DeployProto F → Brc4 F
  transfer : TransferProto F → Brc4 F

-- `Unknown` drops its text.
pub data Brc4ParseErr : Type 0 where
  wrong_content_type wrong_protocol decimal_empty decimal_overflow decimal_plus_minus : Brc4ParseErr
  decimal_dot_start_end decimal_spaces invalid_digit invalid_utf8 unknown : Brc4ParseErr

pub data Result {ℓ} (A : Type ℓ) : Type ℓ where
  ok : A → Result A
  err : Brc4ParseErr → Result A

abbrev pub is_chain : Blockchain → Blockchain → Bool
is_chain Blockchain.dogecoin Blockchain.dogecoin = true
is_chain Blockchain.bellscoin Blockchain.bellscoin = true
is_chain Blockchain.pepecoin Blockchain.pepecoin = true
is_chain Blockchain.litecoin Blockchain.litecoin = true
is_chain _ _ = false

abbrev only_if {ℓ} : {A : Type ℓ} → Bool → A → Option A
only_if true a = some a
only_if false a = none

module _ {F : Type 0} where
  -- Each message is that of one chain: `none` is the error "Unsupported type".
  unfoldable pub mint_value : Blockchain → MintProto F → Option (MintProtoWrapper F)
  mint_value c (MintProto.bel20 v) = only_if (is_chain c Blockchain.bellscoin) v
  mint_value c (MintProto.drc20 v) = only_if (is_chain c Blockchain.dogecoin) v
  mint_value c (MintProto.prc20 v) = only_if (is_chain c Blockchain.pepecoin) v
  mint_value c (MintProto.ltc20 v) = only_if (is_chain c Blockchain.litecoin) v

  unfoldable pub deploy_value : Blockchain → DeployProto F → Option (DeployProtoWrapper F)
  deploy_value c (DeployProto.bel20 v) = only_if (is_chain c Blockchain.bellscoin) v
  deploy_value c (DeployProto.drc20 v) = only_if (is_chain c Blockchain.dogecoin) v
  deploy_value c (DeployProto.prc20 v) = only_if (is_chain c Blockchain.pepecoin) v
  deploy_value c (DeployProto.ltc20 v) = only_if (is_chain c Blockchain.litecoin) v

  unfoldable pub transfer_value : Blockchain → TransferProto F → Option (MintProtoWrapper F)
  transfer_value c (TransferProto.bel20 v) = only_if (is_chain c Blockchain.bellscoin) v
  transfer_value c (TransferProto.drc20 v) = only_if (is_chain c Blockchain.dogecoin) v
  transfer_value c (TransferProto.prc20 v) = only_if (is_chain c Blockchain.pepecoin) v
  transfer_value c (TransferProto.ltc20 v) = only_if (is_chain c Blockchain.litecoin) v

-- `DeployProto::MAX_DEC`
abbrev pub max_dec : ℕ
max_dec = 18

-- `s.starts_with(prefix)`, over the characters of both
unfoldable pub starts_with : List ℕ → List ℕ → Bool
starts_with s [] = true
starts_with [] (p ∷ ps) = false
starts_with (c ∷ cs) (p ∷ ps) = c == p && starts_with cs ps

-- `s.split(';').nth(0)`
unfoldable pub before_semicolon : List ℕ → List ℕ
before_semicolon [] = []
before_semicolon (c ∷ cs) = let rest = before_semicolon cs in if c == b';' then [] else c ∷ rest

-- The last character, if there is one.
unfoldable pub ends_with_char : List ℕ → ℕ → Bool
ends_with_char [] d = false
ends_with_char (c ∷ []) d = c == d
ends_with_char (c ∷ c' ∷ cs) d = ends_with_char (c' ∷ cs) d

unfoldable pub starts_with_char : List ℕ → ℕ → Bool
starts_with_char [] d = false
starts_with_char (c ∷ cs) d = c == d

-- "text/plain" and "application/json"
abbrev pub text_plain : List ℕ
text_plain = b't' ∷ b'e' ∷ b'x' ∷ b't' ∷ b'/' ∷ b'p' ∷ b'l' ∷ b'a' ∷ b'i' ∷ b'n' ∷ []

abbrev pub application_json : List ℕ
application_json =
    b'a' ∷ b'p' ∷ b'p' ∷ b'l' ∷ b'i' ∷ b'c' ∷ b'a' ∷ b't' ∷ b'i' ∷ b'o' ∷ b'n' ∷ b'/' ∷ b'j' ∷ b's'
    ∷ b'o' ∷ b'n' ∷ []

unfoldable pub accepts_content_type : Blockchain → List ℕ → Bool
unfolding starts_with before_semicolon
accepts_content_type c content_type =
    if is_chain c Blockchain.dogecoin
    then starts_with content_type text_plain || starts_with content_type application_json
    else before_semicolon content_type == text_plain
      || before_semicolon content_type == application_json

module _ (env : Env) where
  open env use {Fixed128, units}

  -- `bel_20_validate`, whose errors become the ones of `try_parse`; "value is too large" is unknown.
  unfoldable pub bel_20_validate : (List ℕ → Result Fixed128) → List ℕ → Result Fixed128
  unfolding starts_with_char ends_with_char
  bel_20_validate from_str val =
      if starts_with_char val b'+' || starts_with_char val b'-'
      then err Brc4ParseErr.decimal_plus_minus
      else if starts_with_char val b'.' || ends_with_char val b'.'
      then err Brc4ParseErr.decimal_dot_start_end
      else if starts_with_char val b' ' || ends_with_char val b' '
      then err Brc4ParseErr.decimal_spaces
      else elim (from_str val) [
        | ok v ↦ if ltb max_units (units v) then err Brc4ParseErr.unknown else ok v
        | err e ↦ err e
      ]

  abbrev pub lim_or : Option Fixed128 → Fixed128 → Fixed128
  lim_or none m = m
  lim_or (some l) m = l

  -- The last tests of `try_parse`, on a decoded message.
  unfoldable pub check_brc4 : Blockchain → Brc4 Fixed128 → Result (Brc4 Fixed128)
  unfolding mint_value deploy_value transfer_value
  check_brc4 c (Brc4.mint proto) = elim (mint_value c proto) [
    | none ↦ err Brc4ParseErr.wrong_protocol
    | some v ↦ if units v.amt == 0 then err Brc4ParseErr.wrong_protocol else ok (Brc4.mint proto)
  ]
  check_brc4 c (Brc4.transfer proto) = elim (transfer_value c proto) [
    | none ↦ err Brc4ParseErr.wrong_protocol
    | some v ↦
        if units v.amt == 0 then err Brc4ParseErr.wrong_protocol else ok (Brc4.transfer proto)
  ]
  check_brc4 c (Brc4.deploy proto) = elim (deploy_value c proto) [
    | none ↦ err Brc4ParseErr.wrong_protocol
    | some v ↦
        if leb v.dec max_dec && not (units (lim_or v.lim v.max) == 0) && not (units v.max == 0)
        then ok (Brc4.deploy proto)
        else err Brc4ParseErr.wrong_protocol
  ]

  -- `TokenCache::try_parse`. `decode` reads the bytes as UTF-8 text and as JSON of a `Brc4`.
  unfoldable pub try_parse :
      Blockchain → (List ℕ → Result (Brc4 Fixed128)) → List ℕ → List ℕ → Result (Brc4 Fixed128)
  unfolding accepts_content_type check_brc4
  try_parse c decode content_type content =
      if accepts_content_type c content_type
      then elim (decode content) [ ok brc4 ↦ check_brc4 c brc4 | err e ↦ err e ]
      else err Brc4ParseErr.wrong_content_type
