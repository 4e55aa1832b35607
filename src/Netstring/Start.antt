-- ===== src/Netstring/Start.antt =====
-- readNet of assignment4.c up to its loop, on a string that starts with a length and a colon.
use grnvs.Prelude.{
  ℕ, ◌+◌, ◌^◌, ◌≡◌, ◌<◌, refl, true, false, none, some, [], ◌∷◌, ◌++◌, arith, ◌==◌, ==_ne, le→ltb,
  length, take, get_or, Option-cases, inl, inr,
}
use grnvs.Memory.{Bytes, zeros, string_at, index_of}
use grnvs.Memory.Strings.{Lacks, index_of-append, index_of-Lacks, take-append}
use grnvs.Decimal.{decimal, atol}
use grnvs.Decimal.Laws.{AllDigits-Lacks, AllDigits-decimal, Leads-decimal, atol-decimal}
use grnvs.Netstring.{
  bufsize, World, Order, then_do, bad_start, bad_whole, complete, extract, read_net,
}

index_of-none : (c : ℕ) (s t : Bytes) → Lacks c s → index_of c t ≡ none → index_of c (s ++ t) ≡ none
unfolding index_of
index_of-none c [] t h e = e
index_of-none c (b ∷ s) t (ne, h) e = rw (==_ne b c ne, index_of-none c s t h e)

index_of-absent : (c : ℕ) (s : Bytes) → Lacks c s → index_of c s ≡ none
unfolding index_of
index_of-absent c [] h = refl
index_of-absent c (b ∷ s) (ne, h) = rw (==_ne b c ne, index_of-absent c s h)

module _ (n : ℕ) (rest : Bytes) where
  abbrev pub digits : Bytes
  digits = decimal n

  abbrev pub start : Bytes
  start = digits ++ (b':' ∷ rest)

  pub colon-index : index_of b':' start ≡ some (length digits)
  colon-index =
      index_of-append b':' digits rest (AllDigits-Lacks b':' digits refl (AllDigits-decimal n))

  digits-Lacks : Lacks b',' digits
  digits-Lacks = AllDigits-Lacks b',' digits refl (AllDigits-decimal n)

  bad_start-start : bad_start start ≡ false
  unfolding bad_start
  bad_start-start = elim (Option-cases (index_of b',' (b':' ∷ rest))) [
    | inl no_comma ↦
        rw (colon-index, index_of-none b',' digits (b':' ∷ rest) digits-Lacks no_comma, bad_start)
          refl
    | inr (k, comma) ↦
        rw (colon-index, index_of-Lacks b',' k digits (b':' ∷ rest) digits-Lacks comma, bad_start)
          (le→ltb (length digits + k) (length digits) (omega arith))
  ]

  -- Without a comma the second check fails.
  pub bad_whole-start : Lacks b',' rest → bad_whole start ≡ true
  unfolding bad_whole
  bad_whole-start lacks =
      let colon_lacks : Lacks b',' (b':' ∷ rest) = (omega arith, lacks) in
      let none_there =
        index_of-none b',' digits (b':' ∷ rest) digits-Lacks
          (index_of-absent b',' (b':' ∷ rest) colon_lacks) in
      rw (colon-index, none_there, bad_whole) refl

  -- A buffer with the string in it is not at its end.
  pub head-start : (behind : Bytes) → (get_or (start ++ behind) 0 0 == 0) ≡ false
  head-start behind =
      let lead = Leads-decimal n in
      rw lead.split (==_ne lead.head 0 (λ e. omega (arith, e, lead.digit.0)))

  module _ (nonempty : 0 < n) (small : n < 2 ^ 63) where
    no_zero-start : (get_or start 0 0 == b'0') ≡ false
    no_zero-start =
        let lead = Leads-decimal n in rw lead.split (==_ne lead.head b'0' (lead.nonzero nonempty))

    length-start : atol (take (length digits) start) ≡ n
    length-start = rw (take-append digits (b':' ∷ rest)) (atol-decimal n small)

    pub read_net-start :
        (order : Order) (fuel cur : ℕ) (buf : Bytes) (w : World)
        → string_at buf 0 ≡ some start
        → read_net order fuel buf cur w
          ≡ then_do
              (complete fuel n buf (zeros bufsize) w)
              (λ b. extract order (length digits) n cur b)
    unfolding read_net
    read_net-start order fuel cur buf w e =
        rw (e, bad_start-start, no_zero-start, colon-index, length-start) refl
