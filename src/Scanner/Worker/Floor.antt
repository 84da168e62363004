-- ===== src/Scanner/Worker/Floor.antt =====
-- ai_scanner/worker.py: the verdict under the floor of the heuristics.
use scamlens.Base.{◌≡◌, ◌≤◌, ◌<◌, refl, arith, Text, leb, max, Bool-cases, inl, inr, ◌⊎◌}
use scamlens.Scanner.Heuristics.{HeuristicReport, severity_floor}
use scamlens.Scanner.Ai.{ScanVerdict}
use scamlens.Scanner.Worker.{rank, apply_heuristic_floor, extra_score}

-- For every verdict, report and domain: after `_apply_heuristic_floor` the severity is the greater
-- of the model's and the floor's; the risk score and the confidence have not gone down; and the
-- verdict is the model's own if the floor is not above it, and otherwise has a risk score of 65
-- at least, 90 for scam, and a confidence of 70 at least.
pub apply_heuristic_floor_lem :
    (v : ScanVerdict) (h : HeuristicReport) (domain : Text)
    → (rank (apply_heuristic_floor v h domain).verdict
        ≡ max (rank v.verdict) (rank (severity_floor h domain).0))
      × (v.risk_score ≤ (apply_heuristic_floor v h domain).risk_score)
      × (v.confidence ≤ (apply_heuristic_floor v h domain).confidence)
      × ((apply_heuristic_floor v h domain ≡ v)
          ⊎ ((rank v.verdict < rank (severity_floor h domain).0)
              × (extra_score (severity_floor h domain).0
                  ≤ (apply_heuristic_floor v h domain).risk_score)
              × (70 ≤ (apply_heuristic_floor v h domain).confidence)))
unfolding apply_heuristic_floor
apply_heuristic_floor_lem v h domain =
    elim (Bool-cases (leb (rank (severity_floor h domain).0) (rank v.verdict))) [
      | inl e ↦ rw e (ground (arith, e), omega arith, omega arith, inl refl)
      | inr e ↦ rw e (
        ground (arith, e),
        omega arith,
        omega arith,
        inr (ground (arith, e), omega arith, omega arith),
      )
    ]
