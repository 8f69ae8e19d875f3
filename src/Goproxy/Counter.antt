-- ===== src/Goproxy/Counter.antt =====
-- counterecryptor.go: random bytes that are the encryption of a counter.
pub mod Carry
pub mod Keystream
pub mod Keys
use n6bagent.Prelude.{
  ℕ, ◌+◌, ◌-◌, ◌%◌, Option, none, some, [], ◌∷◌, ◌++◌, length, take, drop, min, ◌==◌, if◌then◌else◌,
}
use n6bagent.Goproxy.Http.{Bytes, Error, Result, ok, err, zeros}

-- cipher.Block: `encrypt` gives the block that is written.
pub record Cipher : Type 0 where
  pub block_size : ℕ
  pub encrypt : Bytes → Bytes

-- What the generator is made by: aes.NewCipher, and the digest of no bytes by SHA-256.
pub record Crypto : Type 0 where
  pub new_cipher : Bytes → Result Cipher
  pub digest : Bytes

-- CounterEncryptorRand.
pub record Generator : Type 0 where
  pub cipher : Cipher
  pub counter : Bytes  -- of uint8
  pub rand : Bytes
  pub ix : ℕ

-- Go's `copy(dst, src)`: what is in `dst` afterwards.
abbrev pub copied : Bytes → Bytes → Bytes
copied dst src = take (length dst) src ++ drop (length src) dst

-- `h.Sum(b)` of a hash that nothing was written to: its digest behind the bytes of `b`.
abbrev pub sum : Crypto → Bytes → Bytes
sum lib b = b ++ lib.digest

abbrev pub seeded : Crypto → ℕ → Option Bytes → Bytes → Bytes
seeded lib block_size none counter = counter
seeded lib block_size (some seed) counter = copied counter (take block_size (sum lib seed))

abbrev pub from_cipher : Crypto → Option Bytes → Result Cipher → Result Generator
from_cipher lib seed (err e) = err e
from_cipher lib seed (ok c) = ok (record {
  cipher = c;
  counter = seeded lib c.block_size seed (zeros c.block_size);
  rand = zeros c.block_size;
  ix = length (zeros c.block_size);
})

-- NewCounterEncryptorRandFromKey. An RSA key is the bytes that x509.MarshalPKCS1PrivateKey makes of
-- it, and a key of another type is none; aes.BlockSize is 16.
unfoldable pub new_counter_encryptor_rand_from_key :
    Crypto → Option Bytes → Option Bytes → Result Generator
new_counter_encryptor_rand_from_key lib none seed = err (Error.failure "only RSA keys supported")
new_counter_encryptor_rand_from_key lib (some key) seed =
    from_cipher lib seed (lib.new_cipher (take 16 (sum lib key)))

-- Seed; `none` is a panic.
unfoldable pub reseed : Bytes → Generator → Option Generator
reseed b c =
    if length b == length c.counter then some (record c { counter = copied c.counter b }) else none

-- The loop of refill: a byte that wraps around carries into the next.
unfoldable pub increment : Bytes → Bytes
increment [] = []
increment (b ∷ bs) =
    let rest = increment bs in let b' = (b + 1) % 256 in if b' == 0 then b' ∷ rest else b' ∷ bs

unfoldable pub refill : Generator → Generator
unfolding increment
refill c = record c { rand = c.cipher.encrypt c.counter; counter = increment c.counter; ix = 0 }

abbrev pub given : ℕ → Generator → Bytes × Generator
given n c =
    let m = min (length c.rand - c.ix) n in (take m (drop c.ix c.rand), record c { ix = c.ix + m })

-- Read into `n` bytes: those that are given, and the generator. It has no error.
unfoldable pub read : ℕ → Generator → Bytes × Generator
unfolding refill
read n c = if c.ix == length c.rand then given n (refill c) else given n c
