-- ===== src/Queue/Keys.antt =====
-- internal/queue/queue.go, `PartitionKey`.
use mathlib.Core.List.{[], ◌∷◌, ◌++◌}
use nit.Base.{◌≡◌, ◌≢◌, arith, GoString, All}
use nit.Store.Task.{task_push}
use nit.Queue.{partition_key}

-- The text up to the first colon is determined by the whole.
colon_splits :
    (r r' b b' : GoString)
    → All (λ c. c ≢ 58) r
    → All (λ c. c ≢ 58) r'
    → r ++ 58 ∷ b ≡ r' ++ 58 ∷ b'
    → (r ≡ r') × (b ≡ b')
colon_splits [] [] b b' h h' e = ground arith
colon_splits [] (x ∷ r') b b' h (ne, h') e = absurd (ground arith)
colon_splits (x ∷ r) [] b b' (ne, h) h' e = absurd (ground arith)
colon_splits (x ∷ r) (y ∷ r') b b' (ne, h) (ne', h') e =
    let rest = colon_splits r r' b b' h h' in ground arith

-- Two pushes share a partition only if they are to the same branch of the same repository, for
-- repositories without a colon in their IDs.
pub partition_key-injective :
    (r r' b b' : GoString)
    → All (λ c. c ≢ 58) r
    → All (λ c. c ≢ 58) r'
    → partition_key task_push r b ≡ partition_key task_push r' b'
    → (r ≡ r') × (b ≡ b')
unfolding partition_key
partition_key-injective r r' b b' h h' e = colon_splits r r' b b' h h' e
