-- ===== src/Coinbase/Users.antt =====
-- generate_coinbase as a whole, and the coinbase each user mines in pooled and in solo mode.
use mathlib.Core.Path.{subst}
use ckpool.Common.{
  ℕ, ◌<◌, ◌≤◌, ◌≡◌, ◌^◌, ==_iff, sym, inl, inr, Bool, true, false, List, ◌∷◌, ◌++◌, none, some,
  if◌then◌else◌, length, arith, Bool-cases, u8,
}
use ckpool.Coinbase.{
  Fees, Template, Coinbase, Ckp, Scripts, ok, User, find_userwb, generate_userwb, user_coinb2,
  sig_part, coinb2, coinb3, splice, fee_value, takes_fee, poolfee_dust, poolfee_after,
  generate_coinbase,
}
use ckpool.Coinbase.Pays.{IsTail, paid, total, coinbase-IsTail}

find-generate_userwb :
    (id : ℕ) (wb : Coinbase) (user : User)
    → find_userwb id user.userwbs ≡ none
    → find_userwb id (generate_userwb id wb user).userwbs
      ≡ some (wb.coinb2bin ++ (u8 (length user.txnbin) ∷ user.txnbin) ++ wb.coinb3bin)
unfolding generate_userwb find_userwb
find-generate_userwb id wb user e = let r = ==_iff id id in ground (arith, e, r)

module _ (F : Fees) where
  open F use {fee_sats, positive, none_set}

  fee_value-after :
      (ckp ckp' : Ckp F) (value v : ℕ)
      → ckp'.poolvalid ≡ ckp.poolvalid
      → ckp'.poolfee ≡ poolfee_after F ckp value
      → positive none_set ≡ false
      → fee_value F ckp' v ≡ fee_value F ckp v
  unfolding takes_fee poolfee_after poolfee_dust fee_value
  fee_value-after ckp ckp' value v e e' zero = elim (Bool-cases ckp.poolvalid) [
    | inl p ↦ elim (Bool-cases (positive ckp.poolfee)) [
      | inl q ↦ ground arith
      | inr q ↦ ground arith
    ]
    | inr p ↦ ground arith
  ]

  module _ (checktxn : List ℕ → Bool) (header : List ℕ) (ckp ckp' : Ckp F) (s : Scripts F)
      (t : Template) (built : Coinbase)
      (run : generate_coinbase F checktxn header ckp s t ≡ ok (built, ckp')) where
    built-coinb2bin : built.coinb2bin ≡ (
        if ckp.btcsolo
        then coinb2 F ckp t
        else splice F (coinb2 F ckp t) s.txnbin (coinb3 F ckp s t))
    unfolding generate_coinbase
    built-coinb2bin = ground (arith, run)

    built-coinb3bin : ckp.btcsolo ≡ true → built.coinb3bin ≡ coinb3 F ckp s t
    unfolding generate_coinbase
    built-coinb3bin h = ground (arith, run)

    built-poolfee : ckp'.poolfee ≡ poolfee_after F ckp t.coinbasevalue
    unfolding generate_coinbase
    built-poolfee = ground (arith, run)

    built-poolvalid : ckp'.poolvalid ≡ ckp.poolvalid
    unfolding generate_coinbase
    built-poolvalid = ground (arith, run)

    user_coinb2-splice :
        (id : ℕ) (user : User)
        → find_userwb id user.userwbs ≡ none
        → user_coinb2 F ckp s built (find_userwb id (generate_userwb id built user).userwbs)
          ≡ splice F
              (coinb2 F ckp t)
              (if ckp.btcsolo then user.txnbin else s.txnbin)
              (coinb3 F ckp s t)
    unfolding user_coinb2 splice
    user_coinb2-splice id user new =
        let e = find-generate_userwb id built user new in
        elim (Bool-cases ckp.btcsolo) [
          | inl h ↦
              let a = built-coinb2bin in let b = built-coinb3bin h in ground (arith, e, a, b, h)
          | inr h ↦ let a = built-coinb2bin in ground (arith, a, h)
        ]

    -- When generate_coinbase returns, the fee is at most the block's value, which fits a
    -- uint64_t, and the three scripts are shorter than 0xfd bytes: what a user without a template
    -- of this workbase then mines behind the nonces is a well-formed list of outputs that spends
    -- exactly the block's value, with the miner's part for the user in solo mode and for the pool
    -- otherwise.
    pub user_coinb2-IsTail :
        (id : ℕ) (user : User)
        → find_userwb id user.userwbs ≡ none
        → length user.txnbin < 0xfd
        → length s.txnbin < 0xfd
        → length s.pooltxnbin < 0xfd
        → t.coinbasevalue < 2 ^ 64
        → fee_sats t.coinbasevalue ckp.poolfee ≤ t.coinbasevalue
        → IsTail
            (sig_part ckp.btcsig)
            (paid F ckp s t (if ckp.btcsolo then user.txnbin else s.txnbin))
            (user_coinb2 F ckp s built (find_userwb id (generate_userwb id built user).userwbs))
          × (total (paid F ckp s t (if ckp.btcsolo then user.txnbin else s.txnbin))
              ≡ t.coinbasevalue)
    user_coinb2-IsTail id user new short short' short'' small le =
        let script = if ckp.btcsolo then user.txnbin else s.txnbin in
        let shorter : length script < 0xfd = elim (Bool-cases ckp.btcsolo) [
          | inl h ↦ ground arith
          | inr h ↦ ground arith
        ] in
        subst
          (λ bs.
            IsTail (sig_part ckp.btcsig) (paid F ckp s t script) bs
            × (total (paid F ckp s t script) ≡ t.coinbasevalue))
          (sym (user_coinb2-splice id user new))
          (coinbase-IsTail F ckp s t script shorter short'' small le)

    -- When generate_coinbase returns and 0 is not a positive fee, every later block pays the fee
    -- that it would have paid before: neither a dust fee nor an unset one changes what is taken.
    pub generate_coinbase-keeps_fee :
        positive none_set ≡ false → (value : ℕ) → fee_value F ckp' value ≡ fee_value F ckp value
    generate_coinbase-keeps_fee zero value =
        fee_value-after ckp ckp' t.coinbasevalue value built-poolvalid built-poolfee zero
