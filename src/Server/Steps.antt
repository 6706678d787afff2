-- ===== src/Server/Steps.antt =====
-- src/server/handler.rs: the state in which a connection is handled, and how its steps follow each
-- other.
use rust_socks.Utils.{Outcome, ok, err, panic}
use rust_socks.Protocol.Stream.{Stream, Io}
use rust_socks.Acl.Stats.{AclStats}
use rust_socks.Session.{SessionManager}
use rust_socks.Server.Resolver.{SocketAddr}
use rust_socks.Server.Pool.Types.{ConnectionPool}

-- The client's stream, and the parts of the server that a connection shares with the others.
pub record Served (S : Type 0) : Type 0 where
  pub client : Stream
  pub stats : AclStats
  pub manager : SessionManager
  pub pool : ConnectionPool SocketAddr S

abbrev pub Handle {ℓ} : Type 0 → Type ℓ → Type ℓ
Handle S A = Served S → Outcome A × Served S

module _ {S : Type 0} where
  abbrev pub continue {ℓ κ} :
      {A : Type ℓ} {B : Type κ} → Outcome A × Served S → (A → Handle S B) → Outcome B × Served S
  continue (panic, left) rest = (panic, left)
  continue (err failure, left) rest = (err failure, left)
  continue (ok value, left) rest = rest value left

  infixl 5 ◌>>=◌ ◌>>◌
  abbrev pub ◌>>=◌ {ℓ κ} : {A : Type ℓ} {B : Type κ} → Handle S A → (A → Handle S B) → Handle S B
  ◌>>=◌ step rest served = continue (step served) rest

  abbrev pub ◌>>◌ {ℓ} : {B : Type ℓ} → Handle S (Unit {0}) → Handle S B → Handle S B
  step >> rest = step >>= λ done. rest

  abbrev pub give {ℓ} : {A : Type ℓ} → Outcome A → Handle S A
  give outcome served = (outcome, served)

  -- A step on the client's stream.
  abbrev pub talk {ℓ} : {A : Type ℓ} → Io A → Handle S A
  talk step served =
      let (outcome, left) = step served.client in (outcome, record served { client = left })

  abbrev pub manage : (SessionManager → SessionManager) → Handle S (Unit {0})
  manage f served = (ok tt, record served { manager = f served.manager })

  abbrev pub count : (AclStats → AclStats) → Handle S (Unit {0})
  count f served = (ok tt, record served { stats = f served.stats })

  abbrev pub pooled :
      (ConnectionPool SocketAddr S → ConnectionPool SocketAddr S) → Handle S (Unit {0})
  pooled f served = (ok tt, record served { pool = f served.pool })
