-- ===== src/VarEditor/Run/Safety.antt =====
-- Applications/RuntimeVarEditor/RuntimeVarEditor.c: what the whole of `RveRun` keeps to, and that it ends.
use uefi_tools_pkg.Base.{
  ℕ, zero, suc, ◌+◌, ◌<◌, ◌≡◌, refl, inl, inr, ap, sym, arith, by_option, subst, Option, none, some,
  List, [], ◌∷◌, if◌then◌else◌, length,
}
use uefi_tools_pkg.Efi.{efi_error}
use uefi_tools_pkg.Base.All.{All, All-elem}
use uefi_tools_pkg.VarEditor.Load.Read.{IsRead, All-IsRead, IsReadLoad, load_variables-IsReadLoad}
use uefi_tools_pkg.VarEditor.Variable.{Variable}
use uefi_tools_pkg.VarEditor.Services.{Services, Key, Keys}
use uefi_tools_pkg.VarEditor.Load.{load_variables, load_failed}
use uefi_tools_pkg.VarEditor.Input.Bounds.{IsBehind, HasKey-IsBehind, HasYes-skip, length-IsBehind}
use uefi_tools_pkg.VarEditor.Run.{
  Browser, settle, draw, Next, goes, waiting, quit, reading, loading, out_of_bounds, exhausted,
}
use uefi_tools_pkg.VarEditor.Run.Invariant.{
  IsCurrent, due, IsWaiting, IsReady, draw-IsReady, IsWaiting-IsCurrent, IsWaiting-message,
}
use uefi_tools_pkg.VarEditor.Run.Rounds.{first_browser, on_key, take_key, round, rounds, run}
use uefi_tools_pkg.VarEditor.Run.Edits.{IsQuit, IsEditKey, LoadsEnd, IsChange, IsNext}
use uefi_tools_pkg.VarEditor.Run.Ends.{on_key-IsNext}
use uefi_tools_pkg.VarEditor.Run.Outcomes.{
  IsRound, IsHistory, no_write, one_more, IsEnd, Rounds, none_left, one_round, AllUsed,
}

module _ {W : Type 0} (svc : Services W) (load_fuel max_uintn rows : ℕ)
    (loads : LoadsEnd svc load_fuel) where
  module _ (Past : W → Type 0) where
    IsNext-IsRound :
        (variables : List Variable) (key : Key) (keys : Keys) (w : W) (n : Next W)
        → IsNext svc max_uintn Past rows key variables keys w n
        → IsRound svc max_uintn Past rows variables (some key ∷ keys) w n
    IsNext-IsRound variables key keys w (goes b keys' after) (current, (used, e), inl same, keeps) =
        (current, (some key, used, ap (◌∷◌ (some key)) e), inl same, keeps)
    IsNext-IsRound variables key keys w (goes b keys' after)
          (current, (used, e), inr (agreed, write), keeps) =
        (
          current,
          (some key, used, ap (◌∷◌ (some key)) e),
          inr (HasYes-skip (some key) keys agreed, write),
          keeps,
        )
    IsNext-IsRound variables key keys w (quit after) h = (h.0, ([], key, keys, refl, h.1))
    IsNext-IsRound variables key keys w (reading after) h = (h.0, ([], key, keys, refl, h.1))
    IsNext-IsRound variables key keys w loading h = h
    IsNext-IsRound variables key keys w (waiting b after) h = absurd h
    IsNext-IsRound variables key keys w out_of_bounds h = h
    IsNext-IsRound variables key keys w exhausted h = h

    take_key-IsRound :
        (b : Browser) (keys : Keys) (w : W)
        → IsWaiting rows b
        → IsRound svc max_uintn Past rows b.variables keys w
            (take_key svc load_fuel max_uintn rows b keys w)
    unfolding take_key
    take_key-IsRound b [] w ready = (ready, refl, refl)
    take_key-IsRound b (none ∷ keys) w ready =
        (IsWaiting-IsCurrent rows b ready, (none, [], refl), inl refl, λ _ h. h)
    take_key-IsRound b (some key ∷ keys) w ready =
        let b' = record b { message = none } in
        IsNext-IsRound b.variables key keys w (on_key svc load_fuel max_uintn rows key b' keys w) (
          on_key-IsNext svc load_fuel max_uintn rows loads Past key b' keys w
            (IsWaiting-message rows b ready))

    pub round-IsRound :
        (b : Browser) (keys : Keys) (w : W)
        → IsCurrent rows b
        → IsRound svc max_uintn Past rows b.variables keys w
            (round svc load_fuel max_uintn rows b keys w)
    unfolding round
    round-IsRound b keys w current =
        from_ready (draw rows (settle rows b)) (draw-IsReady rows b current)
      where
        from_ready :
            (o : Option Browser)
            → IsReady rows b.variables o
            → IsRound svc max_uintn Past rows b.variables keys w (elim o [
              | none ↦ out_of_bounds
              | some b' ↦ take_key svc load_fuel max_uintn rows b' keys w
            ])
        from_ready none h = h
        from_ready (some b') (ready, now, same) =
            subst
              (λ (l : List Variable).
                IsRound svc max_uintn Past rows l keys w
                  (take_key svc load_fuel max_uintn rows b' keys w))
              same (take_key-IsRound b' keys w ready)

  module _ (start : W) where
    after_change :
        (variables : List Variable) (keys : Keys) (now next : W)
        → IsHistory svc max_uintn start now
        → All (IsRead svc (IsHistory svc max_uintn start)) variables
        → IsChange svc max_uintn variables keys now next
        → IsHistory svc max_uintn start next
    after_change variables keys now next past all (inl same) =
        subst (IsHistory svc max_uintn start) (sym same) past
    after_change variables keys now next past all (inr (agreed, (v, i, e, status, write))) =
        let (_, before, read) =
          All-elem (IsRead svc (IsHistory svc max_uintn start)) variables i v e all in
        one_more past before read write

    IsEnd-uses :
        (Uses Later : W → Type 0) (keys : Keys) (n : Next W)
        → ((after : W) → Later after → Uses after)
        → IsEnd svc max_uintn rows Later keys start n
        → IsEnd svc max_uintn rows Uses keys start n
    IsEnd-uses Uses Later keys (quit after) uses h = h
    IsEnd-uses Uses Later keys (reading after) uses h = h
    IsEnd-uses Uses Later keys (waiting b' after) uses (ready, past, last) =
        (ready, past, uses after last)
    IsEnd-uses Uses Later keys loading uses h = h
    IsEnd-uses Uses Later keys (goes b' left after) uses h = absurd h
    IsEnd-uses Uses Later keys out_of_bounds uses h = h
    IsEnd-uses Uses Later keys exhausted uses h = h

    IsEnd-behind :
        (Uses Later : W → Type 0) (rest keys : Keys) (n : Next W)
        → ((after : W) → Later after → Uses after)
        → IsBehind rest keys
        → IsEnd svc max_uintn rows Later rest start n
        → IsEnd svc max_uintn rows Uses keys start n
    IsEnd-behind Uses Later rest keys (quit after) uses b h =
        (h.0, HasKey-IsBehind IsQuit rest keys b h.1)
    IsEnd-behind Uses Later rest keys (reading after) uses b h =
        (h.0, HasKey-IsBehind IsEditKey rest keys b h.1)
    IsEnd-behind Uses Later rest keys (waiting b' after) uses b (ready, past, last) =
        (ready, past, uses after last)
    IsEnd-behind Uses Later rest keys loading uses b h = h
    IsEnd-behind Uses Later rest keys (goes b' left after) uses b h = absurd h
    IsEnd-behind Uses Later rest keys out_of_bounds uses b h = h
    IsEnd-behind Uses Later rest keys exhausted uses b h = h

    round-IsEnd :
        (b : Browser) (keys : Keys) (w : W) (later : Browser → Keys → W → Next W) (n : Next W)
        → round svc load_fuel max_uintn rows b keys w ≡ n
        → ((b' : Browser) (keys' : Keys) (w' : W)
            → length keys' < length keys
            → IsCurrent rows b'
            → IsHistory svc max_uintn start w'
            → All (IsRead svc (IsHistory svc max_uintn start)) b'.variables
            → IsEnd svc max_uintn rows
                (Rounds svc load_fuel max_uintn rows b' keys' w')
                keys'
                start
                (later b' keys' w'))
        → IsHistory svc max_uintn start w
        → All (IsRead svc (IsHistory svc max_uintn start)) b.variables
        → IsRound svc max_uintn (IsHistory svc max_uintn start) rows b.variables keys w n
        → IsEnd svc max_uintn rows
            (Rounds svc load_fuel max_uintn rows b keys w)
            keys
            start
            (elim n [ goes b' keys' w' ↦ later b' keys' w' | next ↦ next ])
    round-IsEnd b keys w later (goes b' keys' w') e ends past all
          (current', behind, change, keeps) =
        let past' = after_change b.variables keys w w' past all change in
        IsEnd-behind (Rounds svc load_fuel max_uintn rows b keys w)
          (Rounds svc load_fuel max_uintn rows b' keys' w') keys' keys (later b' keys' w')
          (λ after. one_round e) behind
          (ends b' keys' w' (length-IsBehind keys' keys behind) current' past' (keeps past' all))
    round-IsEnd b keys w later (quit after) e ends past all h =
        (subst (IsHistory svc max_uintn start) (sym h.0) past, h.1)
    round-IsEnd b keys w later (reading after) e ends past all h =
        (subst (IsHistory svc max_uintn start) (sym h.0) past, h.1)
    round-IsEnd b keys w later (waiting b' after) e ends past all (ready, empty, same) = (
      ready,
      subst (IsHistory svc max_uintn start) (sym same) past,
      subst (λ (l : Keys). Rounds svc load_fuel max_uintn rows b l w after) (sym empty)
          (subst (Rounds svc load_fuel max_uintn rows b [] w) (sym same) none_left),
    )
    round-IsEnd b keys w later loading e ends past all h = h
    round-IsEnd b keys w later out_of_bounds e ends past all h = h
    round-IsEnd b keys w later exhausted e ends past all h = h

    rounds-IsEnd :
        (fuel : ℕ) (b : Browser) (keys : Keys) (w : W)
        → length keys < fuel
        → IsCurrent rows b
        → IsHistory svc max_uintn start w
        → All (IsRead svc (IsHistory svc max_uintn start)) b.variables
        → IsEnd svc max_uintn rows
            (Rounds svc load_fuel max_uintn rows b keys w)
            keys
            start
            (rounds svc load_fuel max_uintn rows fuel b keys w)
    unfolding rounds
    rounds-IsEnd zero b keys w enough current past all = absurd (omega (arith, enough))
    rounds-IsEnd (suc fuel) b keys w enough current past all =
        round-IsEnd b keys w (rounds svc load_fuel max_uintn rows fuel)
          (round svc load_fuel max_uintn rows b keys w) refl
          (λ b' keys' w' shorter current' past' all'.
            rounds-IsEnd fuel b' keys' w' (omega (arith, enough, shorter)) current' past' all')
          past all (round-IsRound (IsHistory svc max_uintn start) b keys w current)

  pub run-IsEnd :
      (keys : Keys) (w : W)
      → IsEnd svc max_uintn rows
          (AllUsed svc load_fuel max_uintn rows keys w)
          keys
          w
          (run svc load_fuel max_uintn rows keys w)
  unfolding run
  run-IsEnd keys w =
      by_option (IsEnd svc max_uintn rows (AllUsed svc load_fuel max_uintn rows keys w) keys w)
        (load_variables svc load_fuel w) (λ e. absurd (loads w e))
        (λ (status, written, found) e.
          let begun : Browser = record first_browser {
            variables = found;
            message = if efi_error status then some (load_failed status) else written;
          } in
          let end = rounds svc load_fuel max_uintn rows (length keys + 1) begun keys w in
          IsEnd-uses w (AllUsed svc load_fuel max_uintn rows keys w)
            (Rounds svc load_fuel max_uintn rows begun keys w) keys end
            (λ after used. record {
              status = status;
              written = written;
              found = found;
              is_loaded = e;
              used = used;
            })
            (rounds-IsEnd w (length keys + 1) begun keys w (omega arith) (due refl) no_write (
              All-IsRead svc (IsHistory svc max_uintn w) w found no_write
                (subst (IsReadLoad svc w) e (load_variables-IsReadLoad svc w load_fuel)))))
