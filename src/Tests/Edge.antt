-- ===== src/Tests/Edge.antt =====
-- Inputs for the theorems on the gateway and the sweep.
use buildkit_operator.Base.{
  ℕ, ◌*◌, ◌≡◌, ◌≢◌, refl, arith, false, pos, [], ◌∷◌, ◌++◌, length, replicate, Bytes, text,
  has_prefix, All, hour, minute, cut_suffix,
}
use buildkit_operator.Router.{daemon_name, endpoint}
use buildkit_operator.Controller.Effects.{found}
use buildkit_operator.Gateway.{
  server_name, failed, out_of_fuel, peek_client_hello, sni_from_client_hello,
}
use buildkit_operator.Gateway.Fuel.{peek_client_hello_ends}
use buildkit_operator.Gateway.Hello.{Hello, IsHello, client_hello, sni_from_client_hello-found}
use buildkit_operator.Gateway.Backend.{
  Gateway, has_separator, backend, backend_for, sni_of, backend_for-endpoint,
}
use buildkit_operator.Sweeper.{CacheVolume, sweep, sweep_grace, cache_pvc_prefix}
use buildkit_operator.Sweeper.Orphans.{IsOrphan, sweep-IsOrphan}

abbrev hello : Hello
hello = record {
  lengths = 0 ∷ 0 ∷ 80 ∷ [];
  head = replicate 34 7;
  session = 1 ∷ 2 ∷ [];
  ciphers = 19 ∷ 1 ∷ [];
  compression = 0 ∷ [];
  before = record { high = 0; low = 11; body = 1 ∷ 2 ∷ [] } ∷ [];
  name = text "buildkitd-p1.buildkit.svc";
  after = [];
}

hello-IsHello : IsHello hello
hello-IsHello = record { lengths_size = refl; head_size = refl; others = (omega arith, tt) }

sni_from_client_hello-found_example :
    sni_from_client_hello (client_hello hello) ≡ server_name (text "buildkitd-p1.buildkit.svc")
sni_from_client_hello-found_example = sni_from_client_hello-found hello hello-IsHello

abbrev stream : Bytes
stream = 22 ∷ 3 ∷ 1 ∷ 0 ∷ length (client_hello hello) ∷ (client_hello hello ++ text "more")

abbrev gateway : Gateway
gateway = record {
  domains = text "build.example.com" ∷ text "buildkit.svc" ∷ [];
  namespace = text "builds";
  port = pos 1234;
}

backend_for-endpoint_example :
    (addr : Bytes) × (backend_for gateway (sni_of (text "p1") (text "buildkit.svc")) ≡ backend addr)
    × (text "tcp://" ++ addr ≡ endpoint (text "p1") (text "builds") (pos 1234))
unfolding cut_suffix daemon_name has_separator
backend_for-endpoint_example =
    backend_for-endpoint gateway (text "build.example.com" ∷ []) (text "buildkit.svc") []
      (text "p1") refl (refl, tt) refl

peek_client_hello_ends_example : (peek_client_hello stream).parsed ≢ failed out_of_fuel
peek_client_hello_ends_example = peek_client_hello_ends stream

abbrev clock : Bytes → ℕ
clock name = 100 * hour

abbrev orphan : CacheVolume
orphan = record { name = text "cache-buildkitd-p1-0"; is_terminating = false; created = 90 * hour }

default_grace : sweep_grace (pos 0) ≡ pos (10 * minute)
unfolding sweep_grace
default_grace = refl

orphan-IsOrphan : IsOrphan [] clock (10 * minute) orphan
unfolding has_prefix cache_pvc_prefix daemon_name
orphan-IsOrphan = record { is_cache = refl; unowned = tt; stays = refl; aged = omega arith }

sweep-IsOrphan_example :
    All (IsOrphan [] clock (10 * minute)) (sweep (pos 0) clock (found []) (found (orphan ∷ [])))
sweep-IsOrphan_example =
    sweep-IsOrphan [] clock (10 * minute) (omega arith) (omega arith) (pos 0) default_grace
      (orphan ∷ [])
