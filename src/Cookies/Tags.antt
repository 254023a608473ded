-- ===== src/Cookies/Tags.antt =====
-- The tags of mbufs, by which a filter knows its own data again: CheckTag, SetTag and PrependMbufHeader of
-- Kext/cookie.h, and IsValid of Kext/cookie.cpp. The kernel's calls on mbufs are parameters, over the
-- kernel's memory `K`. An mbuf and the data of a tag are addresses, and an int has 4 bytes.
use watchfirewall.Prelude.{
  ℕ, zero, suc, ◌+◌, ◌%◌, ◌^◌, ◌<◌, ◌≡◌, ◌≢◌, refl, ap, ◌∙◌, Bool, true, false, not, Option, none,
  some, List, [], ◌∷◌, ◌==◌, ◌&&◌, if◌then◌else◌, length, arith, ==-ne, ==-refl, Bool-cases, inl,
  inr,
}
use watchfirewall.Links.{Ptr, null}
use watchfirewall.Links.Segment.{Seg}

-- What mbuf_tag_allocate returns: KERN_SUCCESS with the address of the tag's data, EINVAL or another code.
pub data TagStatus : Type 0 where
  allocated : Ptr → TagStatus
  einval refused : TagStatus

pub record Mbufs (K : Type 0) : Type 0 where
  -- The length of the tag's data and their address, where the status is 0.
  pub tag_find : Ptr → K → Option (ℕ × Ptr)
  pub tag_allocate : Ptr → (size : ℕ) → K → TagStatus × K
  -- An int in memory.
  pub load : Ptr → K → ℕ
  pub store : Ptr → ℕ → K → K
  -- mbuf_flags with MBUF_PKTHDR.
  pub has_header : Ptr → K → Bool
  pub next : Ptr → K → Ptr
  pub len : Ptr → K → ℕ
  pub next_packet : Ptr → K → Ptr
  -- mbuf_gethdr, where it succeeds.
  pub get_header : K → Option (Ptr × K)
  pub set_next : Ptr → Ptr → K → K
  pub set_next_packet : Ptr → Ptr → K → K
  pub set_packet_length : Ptr → ℕ → K → K
  pub set_len : Ptr → ℕ → K → K
  pub set_receive_interface : Ptr → Ptr → K → K
  -- The width of size_t.
  pub size_bits : ℕ

-- `proc_find` gives the process, or NULL.
unfoldable pub is_valid : (ℕ → Ptr) → (pid : ℕ) → Bool
is_valid proc_find pid = not (proc_find pid == null)

module _ {K : Type 0} (os : Mbufs K) where
  unfoldable pub check_tag : Ptr → ℕ → K → Bool
  check_tag m value k = elim (os.tag_find m k) [
    | none ↦ false
    | some (len, tag) ↦ len == 4 && os.load tag k == value
  ]

  -- The result, and what `*data` is afterwards.
  unfoldable pub prepend_mbuf_header : Ptr → ℕ → K → Bool × Ptr × K
  prepend_mbuf_header m packet_length k = elim (os.get_header k) [
    | none ↦ (false, m, k)
    | some (new, k1) ↦
        let k2 = os.set_next new m k1 in
        let k3 = os.set_next_packet new (os.next_packet m k2) k2 in
        let k4 = os.set_packet_length new packet_length k3 in
        let k5 = os.set_len new 0 k4 in (true, new, os.set_receive_interface m null k5)
  ]

  -- for (mbuf_t m = *data; m; m = mbuf_next(m)) totalbytes += mbuf_len(m);
  unfoldable pub total_bytes : (fuel : ℕ) → Ptr → ℕ → K → Option ℕ
  total_bytes zero m total k = none
  total_bytes (suc fuel) m total k = elim (m == null) [
    | true ↦ some total
    | false ↦ total_bytes fuel (os.next m k) ((total + os.len m k) % 2 ^ os.size_bits) k
  ]

  -- The second mbuf_tag_allocate, once there is a header.
  abbrev pub set_tag_again : ℕ → Bool × Ptr × K → Bool × Ptr × K
  set_tag_again value (false, m, k) = (false, m, k)
  set_tag_again value (true, m, k) =
      let (status, k') = os.tag_allocate m 4 k in
      elim status [
        | allocated tag ↦ (true, m, os.store tag value k')
        | einval ↦ (false, m, k')
        | refused ↦ (false, m, k')
      ]

  -- The case EINVAL, which falls through to the `return false`.
  abbrev pub set_tag_einval : ℕ → Ptr → ℕ → K → Option (Bool × Ptr × K)
  set_tag_einval fuel m value k =
      if os.has_header m k then some (false, m, k) else elim (total_bytes fuel m 0 k) [
        | none ↦ none
        | some total ↦ some (set_tag_again value (prepend_mbuf_header m total k))
      ]

  unfoldable pub set_tag : (fuel : ℕ) → Ptr → ℕ → K → Option (Bool × Ptr × K)
  set_tag fuel m value k =
      let (status, k') = os.tag_allocate m 4 k in
      elim status [
        | allocated tag ↦ some (true, m, os.store tag value k')
        | einval ↦ set_tag_einval fuel m value k'
        | refused ↦ some (false, m, k')
      ]

  -- What the kernel promises: a tag that was allocated is found, with its size, also after a store to its data, which keeps
  -- the value.
  pub record Tags : Type 0 where
    pub finds :
        (m tag : Ptr) (size v : ℕ) (k : K)
        → (os.tag_allocate m size k).0 ≡ allocated tag
        → os.tag_find m (os.store tag v (os.tag_allocate m size k).1) ≡ some (size, tag)
    pub keeps : (tag : Ptr) (v : ℕ) (k : K) → os.load tag (os.store tag v k) ≡ v

  total_bytes-next :
      (fuel total : ℕ) (m : Ptr) (k : K)
      → m ≢ null
      → total_bytes (suc fuel) m total k
        ≡ total_bytes fuel (os.next m k) ((total + os.len m k) % 2 ^ os.size_bits) k
  unfolding total_bytes
  total_bytes-next fuel total m k n = rw (==-ne m null n, total_bytes) refl

  -- The loop over the chain of mbufs ends.
  total_bytes-ends :
      (fuel total : ℕ) (m : Ptr) (xs : List Ptr) (k : K)
      → Seg (λ p. os.next p k) m xs null
      → length xs < fuel
      → (n : ℕ) × (total_bytes fuel m total k ≡ some n)
  unfolding total_bytes
  total_bytes-ends zero total m xs k s h = absurd (omega arith)
  total_bytes-ends (suc fuel) total m [] k s h = (total, rw (s, total_bytes) refl)
  total_bytes-ends (suc fuel) total m (x ∷ xs) k s h =
      let (n, e) =
        total_bytes-ends fuel ((total + os.len x k) % 2 ^ os.size_bits) (os.next x k) xs k s.2
          (omega arith) in
      (
        n,
        ap (λ (p : Ptr). total_bytes (suc fuel) p total k) s.0
            ∙ total_bytes-next fuel total x k s.1
            ∙ e,
      )

  -- A tag with the value is found where a result is true.
  abbrev Tagged : ℕ → Bool × Ptr × K → Type 0
  Tagged value (true, m, k) = check_tag m value k ≡ true
  Tagged value (false, m, k) = Unit {0}

  module _ (laws : Tags) (value : ℕ) where
    allocated_tagged :
        (m tag : Ptr) (k : K)
        → (os.tag_allocate m 4 k).0 ≡ allocated tag
        → check_tag m value (os.store tag value (os.tag_allocate m 4 k).1) ≡ true
    unfolding check_tag
    allocated_tagged m tag k e =
        rw (check_tag, laws.finds m tag 4 value k e, laws.keeps, ==-refl value) refl

    set_tag_again-Tagged : (r : Bool × Ptr × K) → Tagged value (set_tag_again value r)
    set_tag_again-Tagged (false, m, k) = tt
    set_tag_again-Tagged (true, m, k) = by_status (os.tag_allocate m 4 k).0 refl
      where
        by_status :
            (status : TagStatus)
            → (os.tag_allocate m 4 k).0 ≡ status
            → Tagged value (elim status [
              | allocated tag ↦ (true, m, os.store tag value (os.tag_allocate m 4 k).1)
              | einval ↦ (false, m, (os.tag_allocate m 4 k).1)
              | refused ↦ (false, m, (os.tag_allocate m 4 k).1)
            ])
        by_status (allocated tag) e = allocated_tagged m tag k e
        by_status einval e = tt
        by_status refused e = tt

    set_tag_einval-Tagged :
        (fuel : ℕ) (m : Ptr) (xs : List Ptr) (k : K)
        → Seg (λ p. os.next p k) m xs null
        → length xs < fuel
        → (r : Bool × Ptr × K) × (set_tag_einval fuel m value k ≡ some r) × Tagged value r
    set_tag_einval-Tagged fuel m xs k s h = elim (Bool-cases (os.has_header m k)) [
      | inl e ↦ ((false, m, k), rw e refl, tt)
      | inr e ↦
          let (total, e') = total_bytes-ends fuel 0 m xs k s h in
          let r = prepend_mbuf_header m total k in
          (set_tag_again value r, rw (e, e') refl, set_tag_again-Tagged r)
    ]

    -- SetTag on a packet of a chain of mbufs that ends, with fuel for more than them: it ends, and where it returns
    -- true, CheckTag finds the value at what `*data` is then, a header that was put in front included.
    pub set_tag-check_tag :
        (fuel : ℕ) (m : Ptr) (xs : List Ptr) (k : K)
        → Seg (λ p. os.next p (os.tag_allocate m 4 k).1) m xs null
        → length xs < fuel
        → (r : Bool × Ptr × K) × (set_tag fuel m value k ≡ some r) × Tagged value r
    unfolding set_tag
    set_tag-check_tag fuel m xs k s h = by_status (os.tag_allocate m 4 k).0 refl
      where
        by_status :
            (status : TagStatus)
            → (os.tag_allocate m 4 k).0 ≡ status
            → (r : Bool × Ptr × K) × (◌≡◌ {A = Option (Bool × Ptr × K)}
                (elim status [
                  | allocated tag ↦ some (true, m, os.store tag value (os.tag_allocate m 4 k).1)
                  | einval ↦ set_tag_einval fuel m value (os.tag_allocate m 4 k).1
                  | refused ↦ some (false, m, (os.tag_allocate m 4 k).1)
                ])
                (some r))
              × Tagged value r
        by_status (allocated tag) e = (_, refl, allocated_tagged m tag k e)
        by_status einval e = set_tag_einval-Tagged fuel m xs (os.tag_allocate m 4 k).1 s h
        by_status refused e = (_, refl, tt)
