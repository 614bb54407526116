-- ===== src/Commands/Stored.antt =====
-- What a write to a screen keeps, for the commands of server/commands that change a screen.
use lcdproc.Prelude.{◌≡◌, sym, ◌∙◌, some, ◌==◌, Bytes, Bool-cases, inl, inr, arith, All-mono}
use lcdproc.ScreenList.{Ptr, Screen, get_screen}
use lcdproc.ScreenList.Notices.{announced}
use lcdproc.ScreenList.Top.{IsReadable, WellFormed}
use lcdproc.Commands.{Server, send_error}
use lcdproc.Commands.ScreenCommands.{store_screen}
use lcdproc.Commands.Sound.{OwnedBy, Sound}

-- The screen is the same one for its client.
abbrev pub Same : Screen → Screen → Type 0
Same x x' = (x'.id ≡ x.id) × (x'.client ≡ x.client)

module _ (p : Ptr) (x x' : Screen) (s : Server) (at : get_screen s.rotation p ≡ some x)
    (same : Same x x') where
  pub stored-IsReadable :
      (u : Ptr) → IsReadable s.rotation u → IsReadable (store_screen p x' s).rotation u
  unfolding get_screen store_screen
  stored-IsReadable u (y, e) = elim (Bool-cases (u == p)) [
    | inl t ↦ (x', ground (arith, t, e))
    | inr n ↦ (y, ground (arith, n, e))
  ]

  stored-announced :
      (u : Ptr)
      → announced (get_screen (store_screen p x' s).rotation u)
        ≡ announced (get_screen s.rotation u)
  unfolding get_screen store_screen
  stored-announced u = ground (arith, at, same.0, same.1)

  stored-owned : (c u : Ptr) → OwnedBy s.rotation c u → OwnedBy (store_screen p x' s).rotation c u
  unfolding get_screen store_screen
  stored-owned c u (y, e, o) = elim (Bool-cases (u == p)) [
    | inl t ↦ (x', ground (arith, t, e), ground (arith, t, e, at, same.1, o))
    | inr n ↦ (y, ground (arith, n, e), o)
  ]

  stored-WellFormed : WellFormed s.rotation → WellFormed (store_screen p x' s).rotation
  unfolding store_screen
  stored-WellFormed w = record {
    readable =
        All-mono (IsReadable s.rotation) (IsReadable (store_screen p x' s).rotation)
          s.rotation.screenlist stored-IsReadable w.readable;
    listed = w.listed;
    in_touch = record {
      in_turn = w.in_touch.in_turn;
      readable = λ ne. stored-IsReadable s.rotation.current_screen (w.in_touch.readable ne);
      current_is = w.in_touch.current_is ∙ sym (stored-announced s.rotation.current_screen);
    };
  }

  pub stored-Sound : Sound s.rotation → Sound (store_screen p x' s).rotation
  unfolding store_screen
  stored-Sound d = record {
    well_formed = stored-WellFormed d.well_formed;
    once = d.once;
    owned = λ c.
        All-mono (OwnedBy s.rotation c) (OwnedBy (store_screen p x' s).rotation c)
          (s.rotation.client_screens c) (stored-owned c) (d.owned c);
    each_once = d.each_once;
  }

pub stored_at :
    (p : Ptr) (x x' : Screen) (s : Server)
    → get_screen s.rotation p ≡ some x
    → get_screen (store_screen p x' s).rotation p ≡ some x'
unfolding get_screen store_screen
stored_at p x x' s at = ground (arith, at)

-- A command has done nothing but report an error.
abbrev pub Refused : Ptr → Server → Server → Type 0
Refused c s s' = (text : Bytes) × (s' ≡ send_error c text s)
