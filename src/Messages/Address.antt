-- ===== src/Messages/Address.antt =====
-- SockAddress of Shared/messageType.h: the first byte is the number of its bytes, the second its family.
use watchfirewall.Prelude.{
  ℕ, zero, suc, ◌+◌, ◌-◌, ◌≡◌, refl, List, [], ◌∷◌, ◌++◌, Option, none, some, length,
}

-- `tail` holds the bytes behind the family, of which `len` counts the first two bytes too.
pub record SockAddress : Type 0 where
  pub len : ℕ
  pub family : ℕ
  pub tail : List ℕ

-- What Copy writes for NULL: AF_UNSPEC, of the size of a SockAddress.
abbrev pub unspecified : SockAddress
unspecified = record { len = 2; family = 0; tail = [] }

-- Copy to a place that holds a SockAddress: the value that is found there.
unfoldable pub copied : Option SockAddress → SockAddress
copied none = unspecified
copied (some a) = a

abbrev pub take : ℕ → List ℕ → List ℕ
take zero xs = []
take (suc n) [] = []
take (suc n) (x ∷ xs) = x ∷ take n xs

abbrev pub drop : ℕ → List ℕ → List ℕ
drop zero xs = xs
drop (suc n) [] = []
drop (suc n) (x ∷ xs) = drop n xs

-- The `len` bytes that memcpy copies.
unfoldable pub copied_bytes : Option SockAddress → List ℕ
unfolding copied
copied_bytes sa = let a = copied sa in take a.len (a.len ∷ a.family ∷ a.tail)

-- Reading a SockAddress at the first of some bytes.
unfoldable pub read_address : List ℕ → SockAddress
read_address [] = unspecified
read_address (l ∷ []) = record { len = l; family = 0; tail = [] }
read_address (l ∷ f ∷ bytes) = record { len = l; family = f; tail = take (l - 2) bytes }

-- GetLocal and GetRemote of RawMessageSfltAccept, over its `data`.
unfoldable pub get_local : List ℕ → SockAddress
get_local bytes = read_address bytes

unfoldable pub get_remote : List ℕ → SockAddress
unfolding get_local
get_remote bytes = read_address (drop (get_local bytes).len bytes)

-- `len` says how many bytes there are.
pub record IsAddress (a : SockAddress) : Type 0 where
  pub counted : a.len ≡ length a.tail + 2

pub take-append : (xs ys : List ℕ) → take (length xs) (xs ++ ys) ≡ xs
take-append [] ys = refl
take-append (x ∷ xs) ys = rw (take-append xs ys) refl

pub drop-append : (xs ys : List ℕ) → drop (length xs) (xs ++ ys) ≡ ys
drop-append [] ys = refl
drop-append (x ∷ xs) ys = drop-append xs ys

pub take-length : (xs : List ℕ) → take (length xs) xs ≡ xs
take-length [] = refl
take-length (x ∷ xs) = rw (take-length xs) refl
