-- ===== src/Settlement/Ledger.antt =====
-- The settlement transactions over a history of calls of `initiate`, each with its own provider.
use mathlib.Core.List.{Memᴰ}
use mathlib.Core.List.Memᴰ
use neo_lloyds.Prelude.{
  ℕ, true, false, ◌==◌, ◌≡◌, refl, ap, sym, subst, ◌∙◌, ◌⊎◌, inl, inr, none, some, List, [], ◌∷◌,
  Bool-cases, All,
}
use neo_lloyds.Prelude.Dict.{get, some_injective}
use neo_lloyds.Errors.{Result, ok, err, DomainError}
use neo_lloyds.Identity.{AuthContext}
use neo_lloyds.Money.{add_money}
use neo_lloyds.Money.Sums.{IsMoney}
use neo_lloyds.Settlement.{submitted, confirmed, failed, SettlementCalculation}
use neo_lloyds.Settlement.Split.{calculate_settlement-exact}
use neo_lloyds.Settlement.Providers.{SubmissionResult, SettlementProvider}
use neo_lloyds.Settlement.Service.{StoredTransaction, Store, SettlementInput, initiate}
use neo_lloyds.Settlement.Initiate.{initiate-Outcome}
use neo_lloyds.Settlement.Outcomes.{
  calculation_of, submitted_transaction, net_submission, IsAdded, refused_call, stuck, settled_call,
}

pub record Initiation : Type 0 where
  pub provider : SettlementProvider
  pub ctx : AuthContext
  pub fresh_id : ℕ
  pub now : ℕ
  pub input : SettlementInput

unfoldable pub perform : Initiation → Store → Store
unfolding initiate
perform c s = (initiate c.provider c.ctx c.fresh_id c.now c.input s).1

unfoldable pub perform_all : List Initiation → Store → Store
unfolding perform
perform_all [] s = s
perform_all (c ∷ cs) s = perform_all cs (perform c s)

abbrev pub HasValidGross : Initiation → Type 0
HasValidGross c = IsMoney c.input.gross_amount

-- What became of a transaction at its provider.
pub data IsSettledBy (c : Initiation) (calc : SettlementCalculation) (t : StoredTransaction)
    : Type 0 where
  thrown :
      {e : DomainError}
      → c.provider (net_submission c.fresh_id c.input calc) ≡ err e
      → t.status ≡ submitted
      → t.provider_ref ≡ none
      → IsSettledBy c calc t
  answered :
      {result : SubmissionResult}
      → c.provider (net_submission c.fresh_id c.input calc) ≡ ok result
      → ((result.succeeded ≡ true) × (t.status ≡ confirmed))
        ⊎ ((result.succeeded ≡ false) × (t.status ≡ failed))
      → t.provider_ref ≡ some result.provider_ref
      → IsSettledBy c calc t

-- A transaction that a call has left: the fee and the net amount that were calculated make up the
-- gross amount, and its provider has been asked for the net amount.
pub record IsFrom (c : Initiation) (t : StoredTransaction) : Type 0 where
  pub key : t.id ≡ c.fresh_id
  pub calc : SettlementCalculation
  pub computed : calculation_of c.input ≡ ok calc
  pub charged : (t.fee ≡ calc.fee) × (t.net_amount ≡ calc.net_amount)
  pub adds_up : add_money t.fee t.net_amount ≡ ok c.input.gross_amount
  pub asked : IsSettledBy c calc t

-- Each stored transaction was there before, or comes from one of the calls.
abbrev pub IsLedger : List Initiation → Store → Store → Type 0
IsLedger cs s s' =
    (j : ℕ) (t : StoredTransaction)
    → get j s'.transactions ≡ some t
    → (get j s.transactions ≡ some t) ⊎ ((c : Initiation) × Memᴰ c cs × IsFrom c t)

split_adds_up :
    (input : SettlementInput) (calc : SettlementCalculation)
    → IsMoney input.gross_amount
    → calculation_of input ≡ ok calc
    → add_money calc.fee calc.net_amount ≡ ok input.gross_amount
split_adds_up input calc valid h = (calculate_settlement-exact input.gross_amount _ valid h).adds_up

-- What a call adds, if it adds anything.
abbrev IsAdding : Initiation → Store → Store → Type 0
IsAdding c s s' = (s' ≡ s) ⊎ ((t : StoredTransaction) × IsFrom c t × IsAdded t s s')

perform-IsAdding : (c : Initiation) (s : Store) → HasValidGross c → IsAdding c s (perform c s)
unfolding perform
perform-IsAdding c s valid = elim (initiate-Outcome c.provider c.ctx c.fresh_id c.now c.input s) [
  | refused_call e is ↦ inl (ap (λ (r : Result StoredTransaction × Store). r.1) is)
  | stuck e _ left ↦ inr (
    submitted_transaction c.ctx c.fresh_id c.now c.input left.calc,
    record {
      key = refl;
      calc = left.calc;
      computed = left.computed;
      charged = (refl, refl);
      adds_up = split_adds_up c.input left.calc valid left.computed;
      asked = thrown left.thrown refl refl;
    },
    left.added,
  )
  | settled_call t _ done ↦
      let (fee, net) = done.split in
      let sum : add_money t.fee t.net_amount ≡ ok c.input.gross_amount =
        rw (fee, net) (split_adds_up c.input done.calc valid done.computed) in
      inr (
        t,
        record {
          key = ap (λ (x : StoredTransaction). x.id) done.returned;
          calc = done.calc;
          computed = done.computed;
          charged = done.split;
          adds_up = sum;
          asked = answered done.answered done.status_is done.referenced;
        },
        done.added,
      )
]

added_cases :
    (s s' : Store) (j : ℕ) {t u : StoredTransaction}
    → IsAdded t s s'
    → get j s'.transactions ≡ some u
    → (t ≡ u) ⊎ (get j s.transactions ≡ some u)
added_cases s s' j {t} {u} added h = elim (Bool-cases (t.id == j)) [
  | inl hit ↦ inl (some_injective (sym (added j ∙ rw hit refl) ∙ h))
  | inr miss ↦ inr (sym (added j ∙ rw miss refl) ∙ h)
]

perform-IsLedger :
    (c : Initiation) (s : Store) → HasValidGross c → IsLedger (c ∷ []) s (perform c s)
perform-IsLedger c s valid j t h = elim (perform-IsAdding c s valid) [
  | inl is ↦ inl (subst (λ (x : Store). get j x.transactions ≡ some t) is h)
  | inr (u, new, added) ↦ elim (added_cases s (perform c s) j added h) [
    | inl is ↦ inr (c, Memᴰ.head refl, subst (IsFrom c) is new)
    | inr old ↦ inl old
  ]
]

-- Whatever calls of `initiate` are made, with whatever providers, where the gross amount of each is valid
-- money: every transaction that is stored afterwards was stored before just so, or comes from one of
-- the calls. Then its fee and its net amount are the calculated ones and make up the gross amount of
-- that call, and the call's provider was asked for the net amount: it has thrown, and the transaction is
-- SUBMITTED without a reference, or it has answered, and the transaction has the reference of that
-- answer and is CONFIRMED if the provider has succeeded and FAILED if not.
pub perform_all-IsLedger :
    (cs : List Initiation) (s : Store) → All HasValidGross cs → IsLedger cs s (perform_all cs s)
unfolding perform_all
perform_all-IsLedger [] s valid j t h = inl h
perform_all-IsLedger (c ∷ cs) s valid j t h =
    elim (perform_all-IsLedger cs (perform c s) valid.1 j t h) [
      | inr (d, m, from) ↦ inr (d, Memᴰ.tail m, from)
      | inl early ↦ elim (perform-IsLedger c s valid.0 j t early) [
        | inl before ↦ inl before
        | inr (d, m, from) ↦ elim (Memᴰ.cases_cons m) [
          | inl is ↦ inr (d, Memᴰ.head is, from)
          | inr none_left ↦ absurd (Memᴰ.not-nil none_left)
        ]
      ]
    ]
