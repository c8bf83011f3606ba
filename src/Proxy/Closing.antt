-- ===== src/Proxy/Closing.antt =====
-- proxy/main.c, the loop of proxy_recv_demux that closes the channels of a lost connection.
use testbus.Base.{ℕ, ◌≡◌, [], none, some, get_elem?}
use testbus.Proxy.Endpoint.{Endpoint, Endpoints}
use testbus.Proxy.Channel.{Proxy}

-- An endpoint that has nothing to write.
pub record IsIdle (es : Endpoints) (i : ℕ) (e : Endpoint) : Type 0 where
  pub at : get_elem? es i ≡ some e
  pub wbuf : e.wbuf ≡ none
  pub wqueue : e.wqueue ≡ []
