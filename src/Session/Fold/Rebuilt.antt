-- ===== src/Session/Fold/Rebuilt.antt =====
-- The batch that internal/session/fold.go reads from the stored message is the batch that
-- internal/agent/loop.go assembled from the stream.
use mathlib.Core.List.{append-nil}
use nowhere_agent.Base.{◌≡◌, refl, ◌∙◌, true, false, List, [], ◌∷◌, ◌++◌, arith, str_eq, eq_iff}
use nowhere_agent.Provider.{Block, is_tool_use}
use nowhere_agent.Agent.{Surroundings, RunState, Delivery}
use nowhere_agent.Agent.Stream.{Accumulator, new_turn, consume, finalize}
use nowhere_agent.Agent.Stream.Whole.{AllStarts, consume-Sound, block_of, call_of}
use nowhere_agent.Agent.Loop.{carries, drop_empty_blocks}
use nowhere_agent.Session.Fold.{calls_in}

-- A block starts without an error of its arguments, and a tool call with its id.
abbrev pub Clean : Block → Type 0
Clean b = (str_eq b.args_error "" ≡ true) × (is_tool_use b ≡ true → str_eq b.tool_use_id "" ≡ false)

calls_in-append : (bs ds : List Block) → calls_in (bs ++ ds) ≡ calls_in bs ++ calls_in ds
unfolding calls_in
calls_in-append [] ds = refl
calls_in-append (b ∷ bs) ds = ground (arith, calls_in-append bs ds)

-- Blocks without content are not calls.
calls_in-drop_empty_blocks : (bs : List Block) → calls_in (drop_empty_blocks bs) ≡ calls_in bs
unfolding calls_in drop_empty_blocks carries
calls_in-drop_empty_blocks [] = refl
calls_in-drop_empty_blocks (b ∷ bs) = ground (arith, calls_in-drop_empty_blocks bs)

module _ (env : Surroundings) (a : Accumulator) (clean : Clean a.block) where
  kept_id :
      ((block_of env a).tool_use_id ≡ a.block.tool_use_id)
      × (is_tool_use (block_of env a) ≡ is_tool_use a.block)
  unfolding finalize
  kept_id = (ground arith, ground arith)

  kept_error :
      is_tool_use (block_of env a) ≡ true → (block_of env a).args_error ≡ (finalize env a).1
  unfolding finalize
  kept_error e = ground (arith, e, clean.0, eq_iff a.block.args_error "")

  calls_in-block_of :
      is_tool_use (block_of env a) ≡ true → calls_in (block_of env a ∷ []) ≡ call_of env a ∷ []
  unfolding calls_in
  calls_in-block_of e = ground (arith, e, kept_id.0, kept_id.1, kept_error e, clean.1)

  calls_in-other : is_tool_use (block_of env a) ≡ false → calls_in (block_of env a ∷ []) ≡ []
  unfolding calls_in
  calls_in-other e = ground (arith, e)

-- For every stream whose blocks start without an error of their arguments, and its tool calls with
-- an id: the calls that the fold reads in the stored message, from which the blocks without content
-- are dropped, are the calls of the turn, with their names, their arguments and the errors of these.
pub calls_in-consume :
    (env : Surroundings) (ds : List Delivery) (s : RunState)
    → AllStarts Clean ds
    → let t = (consume env ds new_turn s).turn in calls_in (drop_empty_blocks t.content) ≡ t.calls
unfolding calls_in
calls_in-consume env ds s b =
    calls_in-drop_empty_blocks (consume env ds new_turn s).turn.content
    ∙ (consume-Sound env Clean (λ bs cs. calls_in bs ≡ cs)
        (λ a bs cs c h. (
          λ e.
              ground
                (arith, h, calls_in-append bs (block_of env a ∷ []), calls_in-block_of env a c e),
          λ e. ground (
            arith,
            h,
            calls_in-append bs (block_of env a ∷ []),
            calls_in-other env a c e,
            append-nil (calls_in bs),
          ),
        ))
        ds new_turn s b (tt, refl)).1
