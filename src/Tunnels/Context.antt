-- ===== src/Tunnels/Context.antt =====
-- mnet/tunnel_context.c, mnet/tunnel_pool.c and mnet/tunnel_impl.c: the context of the tunnels, their
-- pool and a tunnel. Pointers to other objects are numbers, and 0 is NULL.
use i2p_lite.Base.{ℕ, zero, List, Option, none, some}
use i2p_lite.Base.{replicate}

-- `struct mnet_garlic_message_router`: its handlers stay NULL.
pub record MessageRouter : Type 0 where
  pub impl : ℕ

-- `struct mnet_garlic_tunnel_context`
pub record TunnelContext : Type 0 where
  pub i2np : MessageRouter
  pub router : ℕ

-- `mnet_garlic_tunnel_context_new`, for a context at the address `self`
abbrev pub context_new : (self router : ℕ) → TunnelContext
context_new self router = record { i2np = record { impl = self }; router = router }

-- `mnet_garlic_tunnel_context_message_router`
abbrev pub message_router : TunnelContext → MessageRouter
message_router t = t.i2np

-- `mnet_garlic_tunnel_context_attach`
abbrev pub attach : TunnelContext → (router : ℕ) → TunnelContext
attach t router = record t { router = router }

-- `mnet_garlic_tunnel_context_dispatch`, which does nothing with a message.
abbrev pub dispatch_message : {Message : Type 0} → TunnelContext → Message → TunnelContext
dispatch_message t msg = t

-- `TUNNEL_POOL_MAX_TUNNELS`
abbrev pub pool_max_tunnels : ℕ
pool_max_tunnels = 128

-- `struct mnet_garlic_tunnel_pool`: its slots, of which 0 is no tunnel.
pub record TunnelPool : Type 0 where
  pub ctx : ℕ
  pub tunnels : List ℕ

-- `mnet_garlic_tunnel_pool_new`
abbrev pub pool_new : (ctx : ℕ) → TunnelPool
pool_new ctx = record { ctx = ctx; tunnels = replicate pool_max_tunnels zero }

-- `mnet_garlic_tunnel_pool_start` and `mnet_garlic_tunnel_pool_stop`, which are empty.
abbrev pub pool_start : TunnelPool → TunnelPool
pool_start p = p

abbrev pub pool_stop : TunnelPool → TunnelPool
pool_stop p = p

-- `struct mnet_garlic_tunnel`, without its cipher and its handlers
pub record Tunnel : Type 0 where
  pub ctx : ℕ
  pub inbound : ℕ
  pub status : ℕ
  pub our_tid : ℕ
  pub next_tid : ℕ

-- `mnet_garlic_tunnel_new`: `xmalloc` zeroes.
abbrev pub tunnel_new : Tunnel
tunnel_new = record { ctx = 0; inbound = 0; status = 0; our_tid = 0; next_tid = 0 }

-- `mnet_garlic_tunnel_free`, `mnet_garlic_tunnel_context_free` and `mnet_garlic_tunnel_pool_free`: what
-- the pointer is afterwards. `none` is an access through NULL, which the context's message router needs.
abbrev pub tunnel_free : Option Tunnel → Option Tunnel
tunnel_free t = none

abbrev pub context_free : Option TunnelContext → Option (Option TunnelContext)
context_free none = none
context_free (some t) = some none

abbrev pub pool_free : Option TunnelPool → Option TunnelPool
pool_free p = none
