-- ===== src/Service/Leaving.antt =====
-- `logoutUser` and `handleDisconnection` do what the service does.
use tiny_im.Prelude.{◌≡◌, refl, ap, sym, ◌∙◌, not, [], ◌∷◌, Option, none, some, append-nil, select}
use tiny_im.Prelude.Int.{ℤ}
use tiny_im.Handler.State.{SessionId, closes, State, find, erase}
use tiny_im.Handler.State
use tiny_im.Handler.Sessions.{erase-absent}
use tiny_im.Handler.Account.{leave, logout_user, belongs, handle_disconnection}
use tiny_im.Service.{Service, silent}
use tiny_im.Service.Shown.{Shown, Meets}

module _ (s : State) (p : Service) (h : Shown s p) where
  leave-Meets :
      (user : ℤ) (session : SessionId) (there : Option SessionId)
      → find user s.sessions ≡ there
      → Meets s
          (leave user session there s).0
          (closes session ∷ [], record p { sessions = erase user p.sessions })
  unfolding leave State.emit State.set_sessions State.◌>>◌ State.◌>>=◌ State.bind
  leave-Meets user session none e = record {
    effects = refl;
    shown = record {
      same_sessions = sym (erase-absent user s.sessions e) ∙ ap (erase user) h.same_sessions;
      represents = h.represents;
    };
  }
  leave-Meets user session (some other) e = record {
    effects = refl;
    shown = record { same_sessions = ap (erase user) h.same_sessions; represents = h.represents };
  }

  pub logout_user-Meets :
      (user : ℤ) (session : SessionId)
      → Meets s
          (logout_user user session s).0
          (closes session ∷ [], record p { sessions = erase user p.sessions })
  unfolding logout_user State.lookup_session State.◌>>=◌ State.bind
  logout_user-Meets user session = leave-Meets user session (find user s.sessions) refl

  pub handle_disconnection-Meets :
      (session : SessionId)
      → Meets s
          (handle_disconnection session s).0
          (silent (record p { sessions = select (λ e. not (belongs session e)) p.sessions }))
  unfolding handle_disconnection State.set_sessions
  handle_disconnection-Meets session = record {
    effects = sym (append-nil s.effects);
    shown = record {
      same_sessions = ap (select (λ e. not (belongs session e))) h.same_sessions;
      represents = h.represents;
    };
  }
