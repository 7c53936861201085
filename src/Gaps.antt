-- ===== src/Gaps.antt =====
-- frontend/src/lib/api/contract-gaps.ts: the registry of the backend's missing endpoints
-- (Registry) and the lookup in it, with the notice of
-- frontend/src/components/contract-gap-notice.tsx, which lists the gaps of a page.
pub mod Registry
use jolarca.Common.{String, ◌<>◌, Option, none, some, List, [], ◌∷◌, ◌==◌}
use jolarca.Common.Lists.{find}
use jolarca.Errors.{Result, ok, throw, error, ◌>>=◌}
use jolarca.Gaps.Registry.{ContractGap, contract_gaps}

unfoldable pub contract_gap : String → Result ContractGap
unfolding contract_gaps
contract_gap id = elim (find (λ gap. gap.id == id) contract_gaps) [
  | none ↦ throw (error "Error" ("Unknown contract gap id: " <> id))
  | some gap ↦ ok gap
]

-- The rows of `ContractGapNotice`; an unknown id throws while the page renders.
unfoldable pub notice : List String → Result (List ContractGap)
unfolding contract_gap
notice [] = ok []
notice (id ∷ ids) = do gap ← contract_gap id; gaps ← notice ids; ok (gap ∷ gaps)
