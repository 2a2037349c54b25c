-- ===== src/Coordinator/Writer.antt =====
-- leasedReceiptWriter of internal/operations/coordinator.go: what an attempt may change of its receipt.
use llm_bridge_server.Prelude.{
  ℕ, zero, suc, ◌-◌, String, ◌||◌, ltb, List, [], ◌∷◌, ◌++◌, some, length, is_empty, if◌then◌else◌,
  Result, ◌>>=◌,
}
use llm_bridge_server.Operations.Types.{
  EventKind, EffectOutcome, OperationReference, OperationEffect, Receipt, StoreError,
}
use llm_bridge_server.Operations.Store.{Change}
use llm_bridge_server.Coordinator.Attempts.{Messages}

-- leasedReceiptWriter.update
unfoldable pub write_change : (Receipt → Result StoreError Receipt) → Change
write_change change o = do
  receipt ← change o.receipt
  Result.ok (record o { receipt = receipt }, EventKind.progress)

-- SetProgress
unfoldable pub set_progress : String → Receipt → Result StoreError Receipt
set_progress progress receipt = Result.ok (record receipt { progress = some progress })

-- AddEvidence
unfoldable pub add_evidence : List String → Receipt → Result StoreError Receipt
add_evidence evidence receipt =
    Result.ok (record receipt { evidence = receipt.evidence ++ evidence })

-- RecordEffect
unfoldable pub record_effect : OperationReference → String → ℕ → Receipt → Result StoreError Receipt
record_effect target action now receipt = Result.ok (record receipt {
  effects =
      receipt.effects
      ++ record {
        target = target;
        action = action;
        outcome = EffectOutcome.unknown;
        external_operation_id = "";
        recorded_at = now;
      }
        ∷ [];
})

abbrev pub settled_effect : EffectOutcome → String → ℕ → OperationEffect → OperationEffect
settled_effect outcome external now e = record e {
  outcome = outcome;
  external_operation_id = if is_empty external then e.external_operation_id else external;
  recorded_at = now;
}

-- The effect at a position, changed.
unfoldable pub change_effect :
    ℕ → (OperationEffect → OperationEffect) → List OperationEffect → List OperationEffect
change_effect n change [] = []
change_effect zero change (e ∷ effects) = change e ∷ effects
change_effect (suc n) change (e ∷ effects) = e ∷ change_effect n change effects

-- SettleEffect
unfoldable pub settle_effect :
    Messages → ℕ → EffectOutcome → String → ℕ → Receipt → Result StoreError Receipt
unfolding change_effect
settle_effect says number outcome external now receipt =
    if ltb number 1 || ltb (length receipt.effects) number
    then Result.err (StoreError.refused (says.no_effect receipt.identity.id number))
    else Result.ok (record receipt {
      effects = change_effect (number - 1) (settled_effect outcome external now) receipt.effects;
    })
