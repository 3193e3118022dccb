-- ===== src/Negotiation/MoneyLeads.antt =====
-- The canonical bytes of money in front of other bytes: they stand for that money alone.
use tos_messenger.Base.{
  ◌<◌, ◌^◌, ◌≡◌, sym, ap, ◌∙◌, true, ◌++◌, append_assoc, arith, Bytes, ok, err, ℤ, pos, negsuc,
  u32_of_ℤ, length_of_is_hash, length_of_is_prefixed_hash, length_of_is_atomic, >>=-eq-ok,
}
use tos_messenger.Canon.Encode.{uint32, text, hash32}
use tos_messenger.Canon.Leads.{uint32_lead, text_lead, hash32_lead}
use tos_messenger.Negotiation.Money.{
  Network, Asset, Money, validate_network, validate_asset, validate_money, canonical_network,
  canonical_asset, canonical_money, in_workchain_range, code_hash_prefix,
}

pub network_lead :
    (n m : Network) (a b x y : Bytes)
    → validate_network n ≡ ok tt
    → validate_network m ≡ ok tt
    → canonical_network n ≡ ok a
    → canonical_network m ≡ ok b
    → a ++ x ≡ b ++ y
    → (n ≡ m) × (x ≡ y)
unfolding validate_network canonical_network
network_lead n m a b x y vn vm ea eb e =
    let (rn, prn, kn) = >>=-eq-ok (hash32 n.genesis_root_hash) _ ea in
    let (fn, pfn, ln) = >>=-eq-ok (hash32 n.genesis_file_hash) _ kn in
    let (rm, prm, km) = >>=-eq-ok (hash32 m.genesis_root_hash) _ eb in
    let (fm, pfm, lm) = >>=-eq-ok (hash32 m.genesis_file_hash) _ km in
    let an : a ≡ text n.id ++ (rn ++ fn) = ground arith in
    let bm : b ≡ text m.id ++ (rm ++ fm) = ground arith in
    let whole : text n.id ++ (rn ++ (fn ++ x)) ≡ text m.id ++ (rm ++ (fm ++ y)) =
      sym (flat (text n.id) rn fn x)
      ∙ ap (λ z. z ++ x) (sym an)
      ∙ e
      ∙ ap (λ z. z ++ y) bm
      ∙ flat (text m.id) rm fm y in
    let (id_eq, e1) = text_lead n.id m.id _ _ (ground arith) (ground arith) whole in
    let (root_eq, e2) =
      hash32_lead n.genesis_root_hash m.genesis_root_hash rn rm _ _ (ground arith) (ground arith)
        prn prm e1 in
    let (file_eq, e3) =
      hash32_lead n.genesis_file_hash m.genesis_file_hash fn fm x y (ground arith) (ground arith)
        pfn pfm e2 in
    (
      (λ i. record { id = id_eq i; genesis_root_hash = root_eq i; genesis_file_hash = file_eq i }),
      e3,
    )
  where
    flat : (p q r s : Bytes) → (p ++ (q ++ r)) ++ s ≡ p ++ (q ++ (r ++ s))
    flat p q r s = append_assoc p (q ++ r) s ∙ ap (λ z. p ++ z) (append_assoc q r s)

-- A workchain is one byte, so its two's complement in four bytes stands for it alone.
workchain-injective :
    (a b : ℤ)
    → in_workchain_range a ≡ true
    → in_workchain_range b ≡ true
    → u32_of_ℤ a ≡ u32_of_ℤ b
    → a ≡ b
unfolding in_workchain_range
workchain-injective (pos a) (pos b) ha hb e = ap pos (ground arith)
workchain-injective (negsuc a) (negsuc b) ha hb e = ap negsuc (ground arith)
workchain-injective (pos a) (negsuc b) ha hb e = absurd (ground arith)
workchain-injective (negsuc a) (pos b) ha hb e = absurd (ground arith)

u32_of_ℤ_bound : (a : ℤ) → u32_of_ℤ a < 2 ^ 32
u32_of_ℤ_bound (pos a) = omega arith
u32_of_ℤ_bound (negsuc a) = omega arith

asset_tail : Asset → Bytes → Bytes
asset_tail a x =
    uint32 (u32_of_ℤ a.workchain)
    ++ (text a.account_id
        ++ (text a.master_code_hash ++ (text a.wallet_code_hash ++ (uint32 a.decimals ++ x))))

asset_parts :
    (a : Asset) (c : Bytes)
    → canonical_asset a ≡ ok c
    → (n : Bytes) × (canonical_network a.network ≡ ok n)
      × ((x : Bytes) → c ++ x ≡ n ++ asset_tail a x)
unfolding canonical_asset asset_tail
asset_parts a c h =
    let (n, e, k) = >>=-eq-ok (canonical_network a.network) _ h in
    (n, e, λ x. ap (λ r. elim r [ ok z ↦ z ++ x | err f ↦ x ]) (sym k) ∙ simp append_assoc)

asset_tail_lead :
    (a b : Asset) (x y : Bytes)
    → validate_asset a ≡ ok tt
    → validate_asset b ≡ ok tt
    → asset_tail a x ≡ asset_tail b y
    → (a.workchain ≡ b.workchain)
      × (a.account_id ≡ b.account_id)
      × (a.master_code_hash ≡ b.master_code_hash)
      × (a.wallet_code_hash ≡ b.wallet_code_hash)
      × (a.decimals ≡ b.decimals)
      × (x ≡ y)
unfolding asset_tail validate_asset
asset_tail_lead a b x y va vb e =
    let (w, e1) = uint32_lead _ _ _ _ (u32_of_ℤ_bound a.workchain) (u32_of_ℤ_bound b.workchain) e in
    let (i, e2) =
      text_lead a.account_id b.account_id _ _ (ground (arith, length_of_is_hash a.account_id))
        (ground (arith, length_of_is_hash b.account_id)) e1 in
    let (m, e3) =
      text_lead a.master_code_hash b.master_code_hash _ _
        (ground (arith, length_of_is_prefixed_hash code_hash_prefix a.master_code_hash))
        (ground (arith, length_of_is_prefixed_hash code_hash_prefix b.master_code_hash)) e2 in
    let (c, e4) =
      text_lead a.wallet_code_hash b.wallet_code_hash _ _
        (ground (arith, length_of_is_prefixed_hash code_hash_prefix a.wallet_code_hash))
        (ground (arith, length_of_is_prefixed_hash code_hash_prefix b.wallet_code_hash)) e3 in
    let (d, e5) = uint32_lead a.decimals b.decimals x y (ground arith) (ground arith) e4 in
    (workchain-injective a.workchain b.workchain (ground arith) (ground arith) w, i, m, c, d, e5)

network_of_asset : (a : Asset) → validate_asset a ≡ ok tt → validate_network a.network ≡ ok tt
unfolding validate_asset
network_of_asset a h = ground arith

asset_lead :
    (a b : Asset) (c d x y : Bytes)
    → validate_asset a ≡ ok tt
    → validate_asset b ≡ ok tt
    → canonical_asset a ≡ ok c
    → canonical_asset b ≡ ok d
    → c ++ x ≡ d ++ y
    → (a ≡ b) × (x ≡ y)
asset_lead a b c d x y va vb ec ed e =
    let (n, pn, tail) = asset_parts a c ec in
    let (m, pm, tail') = asset_parts b d ed in
    let (net, e1) =
      network_lead a.network b.network n m _ _ (network_of_asset a va) (network_of_asset b vb) pn pm
        (sym (tail x) ∙ e ∙ tail' y) in
    let (w, i, ma, wa, de, rest) = asset_tail_lead a b x y va vb e1 in
    (
      (λ k. record {
        network = net k;
        workchain = w k;
        account_id = i k;
        master_code_hash = ma k;
        wallet_code_hash = wa k;
        decimals = de k;
      }),
      rest,
    )

pub money_lead :
    (a b : Money) (c d x y : Bytes)
    → validate_money a ≡ ok tt
    → validate_money b ≡ ok tt
    → canonical_money a ≡ ok c
    → canonical_money b ≡ ok d
    → c ++ x ≡ d ++ y
    → (a ≡ b) × (x ≡ y)
unfolding validate_money canonical_money
money_lead a b c d x y va vb ec ed e =
    let (n, pn, kn) = >>=-eq-ok (canonical_asset a.asset) _ ec in
    let (m, pm, km) = >>=-eq-ok (canonical_asset b.asset) _ ed in
    let an : c ≡ n ++ text a.atomic = ground arith in
    let bm : d ≡ m ++ text b.atomic = ground arith in
    let whole =
      sym (append_assoc n (text a.atomic) x)
      ∙ ap (λ z. z ++ x) (sym an)
      ∙ e
      ∙ ap (λ z. z ++ y) bm
      ∙ append_assoc m (text b.atomic) y in
    let (assets, e1) =
      asset_lead a.asset b.asset n m _ _ (ground arith) (ground arith) pn pm whole in
    let (counts, rest) =
      text_lead a.atomic b.atomic x y (ground (arith, length_of_is_atomic a.atomic))
        (ground (arith, length_of_is_atomic b.atomic)) e1 in
    ((λ k. record { asset = assets k; atomic = counts k }), rest)
