-- ===== src/Sdk/Cycle.antt =====
-- What Init of src/afi_sdk.cpp leaves open.
use afi920_sdk.Prelude.{◌≡◌, ◌≢◌, refl, Bool, true, false, Option, none, some, if◌then◌else◌, arith}
use afi920_sdk.Error.{AfiError, success, already_running}
use afi920_sdk.Sdk.{
  Config, ready, Channel, Sdk, Opens, resolve_all, open_all, drop_channel, fail_init,
  connect_config, may_init,
}

-- No socket of the stream is open.
pub record IsShut (ch : Channel) : Type 0 where
  pub tcp_shut : ch.tcp_client ≢ some true
  pub udp_shut : ch.udp_open ≡ false

-- No socket is open, and no client of the configuration API is left.
pub record IsClosed (s : Sdk) : Type 0 where
  pub rdi_shut : IsShut s.rdi
  pub shi_shut : IsShut s.shi
  pub spi_shut : IsShut s.spi
  pub no_config : (s.config_client ≡ false) × (s.config_connected ≡ false)
  pub no_csii : (s.csii_sender ≡ false) × (s.csii_tcp ≡ false)

pub tcp_open : Option Bool → Bool
tcp_open none = false
tcp_open (some b) = b

-- The stream's socket of the transport in use is open.
pub listening : Channel → Bool
listening ch = if ch.use_tcp then tcp_open ch.tcp_client else ch.udp_open

drop_channel-IsShut : (ch : Channel) → IsShut (drop_channel ch)
unfolding drop_channel
drop_channel-IsShut ch = record { tcp_shut = λ e. cc; udp_shut = refl }

pub fail_init-IsClosed : (s : Sdk) → IsClosed (fail_init s)
unfolding fail_init
fail_init-IsClosed s = record {
  rdi_shut = drop_channel-IsShut s.rdi;
  shi_shut = drop_channel-IsShut s.shi;
  spi_shut = drop_channel-IsShut s.spi;
  no_config = (refl, refl);
  no_csii = (refl, refl);
}

-- A stream that is enabled listens.
pub record Serves (c : Config) (s : Sdk) : Type 0 where
  pub rdi_listens : c.enable_rdi ≡ true → listening s.rdi ≡ true
  pub shi_listens : c.enable_shi ≡ true → listening s.shi ≡ true
  pub spi_listens : c.enable_spi ≡ true → listening s.spi ≡ true

-- What `Init` can end in: the running session is left as it was; or an error is returned, nothing is
-- open and the object can be initialised again; or it succeeds, and every enabled stream listens.
pub data InitResult (c : Config) (s : Sdk) : Sdk × AfiError → Type 0 where
  refused : may_init s.state ≡ false → InitResult c s (s, already_running)
  failed :
      (t : Sdk) (e : AfiError)
      → e ≢ success
      → IsClosed t
      → may_init t.state ≡ true
      → InitResult c s (t, e)
  opened : (t : Sdk) → t.state ≡ ready → Serves c t → InitResult c s (t, success)

pub resolve_all_state : (c : Config) (s : Sdk) → (resolve_all c s).0.state ≡ s.state
unfolding resolve_all
resolve_all_state c s = ground arith

pub open_all_state : (c : Config) (o : Opens) (s : Sdk) → (open_all c o s).0.state ≡ s.state
unfolding open_all
open_all_state c o s = ground arith

pub connect_config_state :
    (c : Config) (o : Opens) (s : Sdk) → (connect_config c o s).state ≡ s.state
unfolding connect_config
connect_config_state c o s = ground arith
