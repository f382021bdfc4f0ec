-- ===== src/Handle/Keys.antt =====
-- modbusd.c: the keys that the code fills, as uthash compares them.
use modbusd.Prelude.{◌≡◌, ◌≢◌, some, arith, CString, length, length-append}
use modbusd.Env.{Env}
use modbusd.Key.{Key, key_bytes}
use modbusd.Key.Layout.{IsField, padded, endpoint_key, key_bytes-injective, length-padded}
use modbusd.Daemon.{Daemon, ok}
use modbusd.Handle.{fill_key}
use modbusd.Handle.Lookup.{fill_key-fits}

key_bytes_size :
    (ip port : CString)
    → IsField ip
    → IsField port
    → length (key_bytes (endpoint_key ip port)) ≡ 100
unfolding key_bytes endpoint_key
key_bytes_size ip port f g = omega (
  arith,
  length-append (padded ip) (padded port),
  length-padded ip f.fits,
  length-padded port g.fits,
)

-- The two strcpy of a key never fault on an address and a port that fit. For two endpoints that
-- differ in the address or in the port, the 100 bytes of the keys that they fill, which uthash
-- compares, are different, even if address and port written one behind the other are the same.
pub fill_key-separates :
    (E : Env) (ip port ip' port' : CString)
    → IsField ip
    → IsField port
    → IsField ip'
    → IsField port'
    → ¬ ((ip ≡ ip') × (port ≡ port'))
    → (s t : Daemon E)
    → (k k' : Key) × (fill_key E (some ip) (some port) s ≡ ok (k, s))
      × (fill_key E (some ip') (some port') t ≡ ok (k', t))
      × (length (key_bytes k) ≡ 100)
      × (length (key_bytes k') ≡ 100)
      × (key_bytes k ≢ key_bytes k')
fill_key-separates E ip port ip' port' f g f' g' differ s t = (
  endpoint_key ip port,
  endpoint_key ip' port',
  fill_key-fits E ip port f g s,
  fill_key-fits E ip' port' f' g' t,
  key_bytes_size ip port f g,
  key_bytes_size ip' port' f' g',
  λ e. differ (key_bytes-injective ip port ip' port' f g f' g' e),
)
