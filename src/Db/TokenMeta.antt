-- ===== src/Db/TokenMeta.antt =====
-- `TokenMetaDB` of src/db/structs.rs, what the table of tokens holds.
use bel_20_indexer.Tokens.Types.{InscriptionId, DeployProtoDb, TokenMeta}

pub record TokenMetaDb (F : Type 0) : Type 0 where
  pub genesis : InscriptionId
  pub proto : DeployProtoDb F

unfoldable pub from_token_meta : {F : Type 0} → TokenMeta F → TokenMetaDb F
from_token_meta meta = record { genesis = meta.genesis; proto = meta.proto }

unfoldable pub to_token_meta : {F : Type 0} → TokenMetaDb F → TokenMeta F
to_token_meta meta = record { genesis = meta.genesis; proto = meta.proto }
