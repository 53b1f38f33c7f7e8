-- ===== src/Socket/Connecting.antt =====
-- `get_socket` of src/socket.c: the address that is taken.
use sdrproxy.Prelude.{
  ◌≡◌, ◌⊎◌, inl, inr, refl, ap, Bool, true, false, List, [], ◌∷◌, ◌++◌, ℤ, pos, negsuc, ltb_ℤ,
  if◌then◌else◌,
}
use sdrproxy.Socket.{Family, af_inet, other_family, AddrInfo, get_socket}

-- None of the addresses is of AF_INET.
abbrev pub AllOther : List AddrInfo → Type 0
AllOther [] = Unit {0}
AllOther (p ∷ rest) = (p.ai_family ≡ other_family) × AllOther rest

module _ (socket : AddrInfo → ℤ) (good_addr : AddrInfo) where
  -- What is returned for the first address of AF_INET.
  abbrev pub Opens : AddrInfo → ℤ × AddrInfo → Type 0
  Opens p (ret, addr) =
      ((ltb_ℤ (socket p) (pos 0) ≡ true) × (ret ≡ negsuc 0) × (addr ≡ good_addr))
      ⊎ ((ltb_ℤ (socket p) (pos 0) ≡ false) × (ret ≡ socket p) × (addr ≡ p))

  abbrev pub Picks : List AddrInfo → ℤ × AddrInfo → Type 0
  Picks addrs r =
      (AllOther addrs × (r.0 ≡ negsuc 0) × (r.1 ≡ good_addr))
      ⊎ ((before after : List AddrInfo) × (p : AddrInfo) × (addrs ≡ before ++ (p ∷ after))
          × AllOther before
          × (p.ai_family ≡ af_inet)
          × Opens p r)

  opens :
      (p : AddrInfo) (b : Bool)
      → ltb_ℤ (socket p) (pos 0) ≡ b
      → Opens p (if b then (negsuc 0, good_addr) else (socket p, p))
  opens p true e = inl (e, refl, refl)
  opens p false e = inr (e, refl, refl)

  chosen :
      (p : AddrInfo) (rest : List AddrInfo) (f : Family)
      → p.ai_family ≡ f
      → (later : ℤ × AddrInfo) → Picks rest later
      → Picks (p ∷ rest) (elim f [
        | af_inet ↦ if ltb_ℤ (socket p) (pos 0) then (negsuc 0, good_addr) else (socket p, p)
        | other_family ↦ later
      ])
  chosen p rest af_inet e later h =
      inr ([], rest, p, refl, tt, e, opens p (ltb_ℤ (socket p) (pos 0)) refl)
  chosen p rest other_family e later (inl h) = inl ((e, h.0), h.1, h.2)
  chosen p rest other_family e later (inr (before, after, q, eq, others, inet, o)) =
      inr (p ∷ before, after, q, ap (λ l. p ∷ l) eq, (e, others), inet, o)

  -- Get_socket opens a socket for the first address of AF_INET and gives that address, or returns
  -- -1 and leaves the address alone, if there is none or its socket cannot be opened.
  pub get_socket-Picks : (addrs : List AddrInfo) → Picks addrs (get_socket socket good_addr addrs)
  unfolding get_socket
  get_socket-Picks [] = inl (tt, refl, refl)
  get_socket-Picks (p ∷ rest) =
      chosen p rest p.ai_family refl (get_socket socket good_addr rest) (get_socket-Picks rest)

  -- Addresses that are not of AF_INET are passed over.
  pub get_socket-first :
      (before : List AddrInfo) (p : AddrInfo) (after : List AddrInfo)
      → AllOther before
      → p.ai_family ≡ af_inet
      → ltb_ℤ (socket p) (pos 0) ≡ false
      → get_socket socket good_addr (before ++ (p ∷ after)) ≡ (socket p, p)
  unfolding get_socket
  get_socket-first [] p after others inet works = simp (inet, works, get_socket) refl
  get_socket-first (q ∷ before) p after (other, others) inet works =
      simp (other, get_socket) (get_socket-first before p after others inet works)
