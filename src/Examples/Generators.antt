-- ===== src/Examples/Generators.antt =====
-- A generator whose cipher has blocks of two bytes.
use n6bagent.Prelude.{◌+◌, ◌^◌, ◌%◌, ◌≡◌, ◌<◌, refl, [], ◌∷◌, length, take, All, arith}
use n6bagent.Goproxy.Http.{Bytes}
use n6bagent.Goproxy.Counter.{Cipher, Generator, increment}
use n6bagent.Goproxy.Counter.Carry.{value, value-increment}
use n6bagent.Goproxy.Counter.Keystream.{Blocks, ahead, reads, reads-keystream}

abbrev cipher : Cipher
cipher = record { block_size = 2; encrypt = λ b. value b % 256 ∷ 7 ∷ [] }

-- Its counter is about to carry, and one byte of its block is left.
abbrev generator : Generator
generator = record { cipher = cipher; counter = 255 ∷ 0 ∷ []; rand = 5 ∷ 7 ∷ []; ix = 1 }

generator-Blocks : Blocks generator
generator-Blocks = record { sized = λ b. refl; within = omega arith }

reads-keystream_example :
    let bs = reads (1 ∷ 3 ∷ 2 ∷ 2 ∷ []) generator in bs ≡ take (length bs) (ahead 4 generator)
reads-keystream_example =
    reads-keystream (1 ∷ 3 ∷ 2 ∷ 2 ∷ []) 4 generator generator-Blocks (omega arith)

abbrev counter : Bytes
counter = 255 ∷ 0 ∷ []

counter-bytes : All (λ b. b < 256) counter
counter-bytes = (omega arith, (omega arith, tt))

value-increment_example : value (increment counter) ≡ (value counter + 1) % 256 ^ 2
value-increment_example = value-increment counter counter-bytes
