-- ===== src/Keys/Injective.antt =====
-- key.go: the text of a key, and the keys that share one.
use httpcache_kit.Common.{
  ℕ, ◌≡◌, refl, false, List, [], ◌∷◌, ◌++◌, nat_eq, Text, codes, arith, contains,
}
use httpcache_kit.Http.Platform.{Platform}
use httpcache_kit.Keys.Defs.{
  Key, key_string, vary_section, key_namespace, vary_key_namespace, canonical_url,
}

-- The text is empty or starts with the byte.
abbrev Starts : ℕ → Text → Type 0
Starts c [] = Unit
Starts c (b ∷ s) = b ≡ c

-- A part without the byte ends where the byte stands.
cut :
    (c : ℕ) (a b x y : Text)
    → contains c a ≡ false
    → contains c b ≡ false
    → Starts c x
    → Starts c y
    → a ++ x ≡ b ++ y
    → (a ≡ b) × (x ≡ y)
unfolding contains
cut c [] [] x y ha hb hx hy p = (refl, p)
cut c [] (d ∷ bs) [] y ha hb hx hy p = ground arith
cut c [] (d ∷ bs) (e ∷ xs) y ha hb hx hy p = ground arith
cut c (d ∷ ds) [] x [] ha hb hx hy p = ground arith
cut c (d ∷ ds) [] x (e ∷ ys) ha hb hx hy p = ground arith
cut c (d ∷ ds) (e ∷ bs) x y ha hb hx hy p = ground (arith, cut c ds bs x y)

module _ (P : Platform) where
  vary_section-Starts : (vs : List Text) → Starts 31 (vary_section P vs)
  unfolding vary_section
  vary_section-Starts [] = tt
  vary_section-Starts (v ∷ vs) = refl

  vary_section_inj :
      (vs ws : List Text)
      → ((s t : Text) → P.quote s ≡ P.quote t → s ≡ t)
      → ((s : Text) → contains 31 (P.quote s) ≡ false)
      → vary_section P vs ≡ vary_section P ws
      → vs ≡ ws
  unfolding vary_section
  vary_section_inj [] [] inj free p = refl
  vary_section_inj [] (w ∷ ws) inj free p = ground arith
  vary_section_inj (v ∷ vs) [] inj free p = ground arith
  vary_section_inj (v ∷ vs) (w ∷ ws) inj free p =
      let q : P.quote v ++ vary_section P vs ≡ P.quote w ++ vary_section P ws = ground arith in
      let (same, rest) =
        cut 31 (P.quote v) (P.quote w) (vary_section P vs) (vary_section P ws) (free v) (free w)
          (vary_section-Starts vs) (vary_section-Starts ws) q in
      let e = inj v w same in let es = vary_section_inj vs ws inj free rest in cc

  key_body : Key → Text
  key_body k = k.method ++ (58 ∷ (P.print_url (canonical_url k.u) ++ vary_section P k.vary_entries))

  namespaces :
      (vs ws : List Text) (m n x y : Text)
      → contains 31 m ≡ false
      → contains 31 n ≡ false
      → key_namespace vs ++ (m ++ (58 ∷ x)) ≡ key_namespace ws ++ (n ++ (58 ∷ y))
      → m ++ (58 ∷ x) ≡ n ++ (58 ∷ y)
  unfolding key_namespace vary_key_namespace contains codes
  namespaces [] [] m n x y hm hn p = p
  namespaces [] (w ∷ ws) [] n x y hm hn p = ground arith
  namespaces [] (w ∷ ws) (d ∷ ds) n x y hm hn p = ground arith
  namespaces (v ∷ vs) [] m [] x y hm hn p = ground arith
  namespaces (v ∷ vs) [] m (d ∷ ds) x y hm hn p = ground arith
  namespaces (v ∷ vs) (w ∷ ws) m n x y hm hn p = ground arith

  -- The namespace of varied keys sets them apart from every method.
  bodies :
      (j k : Key)
      → contains 31 j.method ≡ false
      → contains 31 k.method ≡ false
      → key_string P j ≡ key_string P k
      → key_body j ≡ key_body k
  unfolding key_string key_body
  bodies j k hj hk p = namespaces j.vary_entries k.vary_entries j.method k.method _ _ hj hk p

  -- Two keys with the same text have the same method, URL text and Vary entries, if quoting is
  -- injective and leaves no unit separator, and neither the methods nor the URL texts have one and
  -- the methods no colon.
  pub key_string_injective :
      (j k : Key)
      → ((s t : Text) → P.quote s ≡ P.quote t → s ≡ t)
      → ((s : Text) → contains 31 (P.quote s) ≡ false)
      → contains 31 j.method ≡ false
      → contains 31 k.method ≡ false
      → contains 58 j.method ≡ false
      → contains 58 k.method ≡ false
      → contains 31 (P.print_url (canonical_url j.u)) ≡ false
      → contains 31 (P.print_url (canonical_url k.u)) ≡ false
      → key_string P j ≡ key_string P k
      → (j.method ≡ k.method)
        × (P.print_url (canonical_url j.u) ≡ P.print_url (canonical_url k.u))
        × (j.vary_entries ≡ k.vary_entries)
  unfolding key_body
  key_string_injective j k inj free mj mk cj ck uj uk p =
      let (methods, rest) =
        cut 58 j.method k.method
          (58 ∷ (P.print_url (canonical_url j.u) ++ vary_section P j.vary_entries))
          (58 ∷ (P.print_url (canonical_url k.u) ++ vary_section P k.vary_entries)) cj ck refl refl
          (bodies j k mj mk p) in
      let (urls, sections) =
        cut 31 (P.print_url (canonical_url j.u)) (P.print_url (canonical_url k.u))
          (vary_section P j.vary_entries) (vary_section P k.vary_entries) uj uk
          (vary_section-Starts j.vary_entries) (vary_section-Starts k.vary_entries)
          (ground arith) in
      (methods, urls, vary_section_inj j.vary_entries k.vary_entries inj free sections)
