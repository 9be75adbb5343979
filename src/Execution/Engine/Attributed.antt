-- ===== src/Execution/Engine/Attributed.antt =====
-- What a response of the engine carries on of its request.
use polymarket_go_sdk.Base.{◌≤◌, ◌≡◌, List, length}
use polymarket_go_sdk.Base.Text.{Text}
use polymarket_go_sdk.Base.Result.{Result, ok, err}
use polymarket_go_sdk.Execution.Engine.{Attribution, header_map, Response, Call, EngineError}

-- One request at most, and none only where there is no response; and the headers of a response's
-- attribution are those of the request's.
abbrev pub CarriedOn {ℓ κ μ} :
    {O : Type ℓ} {A : Type κ} {E : Type μ}
    → Attribution
    → List (Call O) × Result (EngineError E) (Response A)
    → Type 0
CarriedOn a (calls, err e) = length calls ≤ 1
CarriedOn a (calls, ok x) = (length calls ≡ 1) × (header_map x.attribution ≡ header_map a)
