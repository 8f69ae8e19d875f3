-- ===== src/Goproxy/Counter/Keys.antt =====
-- Which part of a key a generator uses.
use n6bagent.Prelude.{◌≤◌, ◌≡◌, ◌∙◌, ap, sym, Option, some, take, take-append_le, length}
use n6bagent.Goproxy.Http.{Bytes}
use n6bagent.Goproxy.Counter.{Crypto, from_cipher, new_counter_encryptor_rand_from_key}

-- The digest stands behind the bytes of the key, so the key of the cipher is the first sixteen of
-- these: two RSA keys that begin alike give the same generator.
pub new_counter_encryptor_rand_from_key-take :
    (lib : Crypto) (key other : Bytes) (seed : Option Bytes)
    → 16 ≤ length key
    → 16 ≤ length other
    → take 16 key ≡ take 16 other
    → new_counter_encryptor_rand_from_key lib (some key) seed
      ≡ new_counter_encryptor_rand_from_key lib (some other) seed
unfolding new_counter_encryptor_rand_from_key
new_counter_encryptor_rand_from_key-take lib key other seed long long' same =
    ap (λ (bs : Bytes). from_cipher lib seed (lib.new_cipher bs))
      (take-append_le 16 key lib.digest long
        ∙ same
        ∙ sym (take-append_le 16 other lib.digest long'))
