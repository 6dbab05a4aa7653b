-- ===== src/Release.antt =====
-- The functions of mnet/cert.c, mnet/eddsa.c, mnet/hash.c, mnet/identity.c, mnet/config.c, mnet/iwp.c,
-- mnet/ri.c, mnet/transport.c, mnet/netdb.c and the tunnels that give back memory: the blocks that they
-- free, in order. A pointer that is NULL has no block.
use i2p_lite.Base.{List, [], ◌∷◌, ◌++◌, Option, none, some}
use i2p_lite.Base.{Bytes}
use i2p_lite.Cert.{Cert}
use i2p_lite.Eddsa.{Verify, Sign}
use i2p_lite.Identity.{Identity}
use i2p_lite.Identity.Keys.{Keys}
use i2p_lite.Config.{Entry, Config}
use i2p_lite.Iwp.{IwpConfig}
use i2p_lite.RouterInfo.{RouterInfoConfig}
use i2p_lite.Transport.{Transport}
use i2p_lite.Netdb.{Netdb}

-- A block of the allocator: a string or the data of a certificate, or a structure.
pub data Block : Type 0 where
  text : Bytes → Block
  cert verify sign hasher identity keys entry config : Block
  iwp info_config transport netdb : Block

-- `free` of a string, which may be NULL.
abbrev pub free_text : Option Bytes → List Block
free_text none = []
free_text (some t) = text t ∷ []

-- `mnet_cert_free`
abbrev pub free_cert : Cert → List Block
free_cert c = free_text c.bytes ++ cert ∷ []

-- `eddsa_Verify_free`, `eddsa_Sign_free` and `mnet_hasher_free`
abbrev pub free_verify : Verify → List Block
free_verify v = verify ∷ []

abbrev pub free_sign : Sign → List Block
free_sign s = sign ∷ []

abbrev pub free_hasher : List Block
free_hasher = hasher ∷ []

-- `if(p) free_p(&p)`
abbrev pub if_set : {A : Type 0} → (A → List Block) → Option A → List Block
if_set f none = []
if_set f (some a) = f a

-- `mnet_identity_free` of an identity, if there is one
abbrev pub free_identity : Option Identity → List Block
free_identity none = []
free_identity (some i) = if_set free_cert i.cert ++ (if_set free_verify i.eddsa ++ identity ∷ [])

-- `mnet_identity_keys_free`, which leaves the identity.
abbrev pub free_keys : Keys → List Block
free_keys k = if_set free_sign k.eddsa ++ keys ∷ []

-- The loop of `mnet_config_free`, and the configuration itself.
unfoldable pub free_entries : List Entry → List Block
free_entries [] = []
free_entries (e ∷ es) = text e.name ∷ text e.value ∷ entry ∷ free_entries es

unfoldable pub free_config : Config → List Block
free_config cfg = free_entries cfg.entries ++ config ∷ []

-- `iwp_config_free`
abbrev pub free_iwp : IwpConfig → List Block
free_iwp cfg = free_text cfg.pubkey ++ (free_text cfg.addr ++ iwp ∷ [])

-- `router_info_config_free`
abbrev pub free_info_config : RouterInfoConfig → List Block
free_info_config c = free_text c.caps ++ info_config ∷ []

-- `mnet_garlic_transport_free`: the implementations are not told.
abbrev pub free_transport : Transport → List Block
free_transport t = transport ∷ []

-- `mnet_netdb_free`, behind the release of its hash map
abbrev pub free_netdb : Netdb → List Block
free_netdb db = text db.rootdir ∷ netdb ∷ []
