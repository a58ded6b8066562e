-- ===== src/System/Sound.antt =====
-- The invariant of the whole database, and the statements of the three services under it.
use starfighter_workflow.Common.{ℕ, ℤ, String, true, List, ◌≡◌, refl, ap, All-map}
use starfighter_workflow.Sql.Rows.{count-update, All-update}
use starfighter_workflow.Sql.Collate.{nocase_eq}
use starfighter_workflow.Db.{
  Db, UserRow, SessionRow, MachineRow, RequestRow, is_machine, has_machine,
}
use starfighter_workflow.Db.Keeps.{commit_if-keeps}
use starfighter_workflow.Db.Keys.{IsKeyed-update}
use starfighter_workflow.Db.Unique.{is_some-append, is_some-update}
use starfighter_workflow.Auth.{
  insert_user, update_user, delete_user, insert_session, slide_session, delete_sessions, forget,
  forget_machine, forget_request,
}
use starfighter_workflow.Auth.Accounts
use starfighter_workflow.Auth.Kept as AuthKept
use starfighter_workflow.Auth.Sound as AuthSound
use starfighter_workflow.Machines.{insert_machine}
use starfighter_workflow.Machines.Kept as MachinesKept
use starfighter_workflow.Repair.{insert_request, update_requests}
use starfighter_workflow.Repair.Kept as RepairKept
use starfighter_workflow.Repair.Lifecycle
use starfighter_workflow.Repair.Lifecycle.{IsSoundRow}

pub record IsSound (d : Db) : Type 0 where
  pub accounts : Accounts.IsSound d
  pub machines : MachinesKept.IsSound d
  pub requests : Lifecycle.IsSound d

-- what a statement on other tables leaves as it is
module _ (d : Db) where
  accounts-elsewhere :
      (ms : List MachineRow) (rs : List RequestRow) (mseq rseq : ℕ)
      → Accounts.IsSound d
      → Accounts.IsSound
          (record d { machines = ms; requests = rs; machine_seq = mseq; request_seq = rseq })
  accounts-elsewhere ms rs mseq rseq s = record {
    keys = s.keys;
    names = s.names;
    roles = s.roles;
    tokens = s.tokens;
    owners = s.owners;
  }

  machines-elsewhere :
      (us : List UserRow) (ss : List SessionRow) (rs : List RequestRow) (useq rseq : ℕ)
      → MachinesKept.IsSound d
      → MachinesKept.IsSound (record d {
        users = us;
        sessions = ss;
        requests = rs;
        user_seq = useq;
        request_seq = rseq;
      })
  machines-elsewhere us ss rs useq rseq s = record { keys = s.keys; names = s.names }

  requests-elsewhere :
      (us : List UserRow) (ss : List SessionRow) (useq : ℕ)
      → Lifecycle.IsSound d
      → Lifecycle.IsSound (record d { users = us; sessions = ss; user_seq = useq })
  requests-elsewhere us ss useq s = record { rows = s.rows; keys = s.keys; linked = s.linked }

-- without its owner a request is still sound: nothing says that a request in repair has one
forget_request-IsSoundRow :
    (id : ℤ) (r : RequestRow) → IsSoundRow r → IsSoundRow (forget_request id r)
forget_request-IsSoundRow id r s = record {
  valid = s.valid;
  triaged = s.triaged;
  unclaimed = λ e. ap (forget id) (s.unclaimed e);
  closed = s.closed;
}

module _ (id : ℤ) (d : Db) where
  machines-delete_user : MachinesKept.IsSound d → MachinesKept.IsSound (delete_user id d).1
  unfolding delete_user
  machines-delete_user s = record {
    keys = IsKeyed-update _ _ (λ m. true) (forget_machine id) d.machines (λ m. refl) s.keys;
    names = λ name.
        rw
          (count-update (λ m. nocase_eq m.name name) (λ m. true) (forget_machine id) d.machines
            (λ m _. refl))
          (s.names name);
  }

  requests-delete_user : Lifecycle.IsSound d → Lifecycle.IsSound (delete_user id d).1
  unfolding delete_user
  requests-delete_user s = record {
    rows =
        All-update IsSoundRow (λ r. true) (forget_request id) d.requests
          (λ r _ h. forget_request-IsSoundRow id r h) s.rows;
    keys = IsKeyed-update _ _ (λ r. true) (forget_request id) d.requests (λ r. refl) s.keys;
    linked =
        All-update _ (λ r. true) (forget_request id) d.requests (λ r _ h. h)
          (All-map (λ r h. still_there r h) d.requests s.linked);
  }
    where
      still_there :
          (r : RequestRow)
          → has_machine d r.machine_id ≡ true
          → has_machine (delete_user id d).1 r.machine_id ≡ true
      still_there r h =
          is_some-update (is_machine r.machine_id) (λ m. true) (forget_machine id) d.machines
            (λ m _. refl) h

pub IsSound-AuthKept : AuthKept.IsKept IsSound
unfolding insert_user update_user insert_session slide_session delete_sessions
IsSound-AuthKept = record {
  insert_user-keeps = λ name hash role shown t d s. record {
    accounts = k.insert_user-keeps name hash role shown t d s.accounts;
    machines =
        commit_if-keeps MachinesKept.IsSound _ _ _ (λ _. machines-elsewhere d _ _ _ _ _ s.machines)
          s.machines;
    requests =
        commit_if-keeps Lifecycle.IsSound _ _ _ (λ _. requests-elsewhere d _ _ _ s.requests)
          s.requests;
  };
  update_user-keeps = λ id f same name role d s. record {
    accounts = k.update_user-keeps id f same name role d s.accounts;
    machines = machines-elsewhere d _ _ _ _ _ s.machines;
    requests = requests-elsewhere d _ _ _ s.requests;
  };
  delete_user-keeps = λ id d s. record {
    accounts = k.delete_user-keeps id d s.accounts;
    machines = machines-delete_user id d s.machines;
    requests = requests-delete_user id d s.requests;
  };
  insert_session-keeps = λ token id t d s. record {
    accounts = k.insert_session-keeps token id t d s.accounts;
    machines =
        commit_if-keeps MachinesKept.IsSound _ _ _ (λ _. machines-elsewhere d _ _ _ _ _ s.machines)
          s.machines;
    requests =
        commit_if-keeps Lifecycle.IsSound _ _ _ (λ _. requests-elsewhere d _ _ _ s.requests)
          s.requests;
  };
  slide_session-keeps = λ token t d s. record {
    accounts = k.slide_session-keeps token t d s.accounts;
    machines = machines-elsewhere d _ _ _ _ _ s.machines;
    requests = requests-elsewhere d _ _ _ s.requests;
  };
  delete_sessions-keeps = λ p d s. record {
    accounts = k.delete_sessions-keeps p d s.accounts;
    machines = machines-elsewhere d _ _ _ _ _ s.machines;
    requests = requests-elsewhere d _ _ _ s.requests;
  };
}
  where
    k : AuthKept.IsKept Accounts.IsSound
    k = AuthSound.IsSound-IsKept

-- machines are only ever added, so a request's machine stays
requests-insert_machine :
    (name : String) (by : ℤ) (t : ℕ) (d : Db)
    → Lifecycle.IsSound d
    → Lifecycle.IsSound (insert_machine name by t d).1
unfolding insert_machine
requests-insert_machine name by t d s =
    commit_if-keeps Lifecycle.IsSound _ _ _
      (λ _. record {
        rows = s.rows;
        keys = s.keys;
        linked =
            All-map (λ r h. is_some-append (is_machine r.machine_id) d.machines _ h) d.requests
              s.linked;
      })
      s

pub IsSound-MachinesKept : MachinesKept.IsKept IsSound
unfolding insert_machine
IsSound-MachinesKept name by t d s = record {
  accounts =
      commit_if-keeps Accounts.IsSound _ _ _ (λ _. accounts-elsewhere d _ _ _ _ s.accounts)
        s.accounts;
  machines = MachinesKept.insert_machine-IsSound name by t d s.machines;
  requests = requests-insert_machine name by t d s.requests;
}

pub IsSound-RepairKept : RepairKept.IsKept IsSound
unfolding insert_request update_requests
IsSound-RepairKept = record {
  insert_request-keeps = λ input by t d s. record {
    accounts =
        commit_if-keeps Accounts.IsSound _ _ _ (λ _. accounts-elsewhere d _ _ _ _ s.accounts)
          s.accounts;
    machines =
        commit_if-keeps MachinesKept.IsSound _ _ _ (λ _. machines-elsewhere d _ _ _ _ _ s.machines)
          s.machines;
    requests = Lifecycle.insert_request-IsSound input by t d s.requests;
  };
  update_requests-keeps = λ p f owner same machine sound d s. record {
    accounts =
        commit_if-keeps Accounts.IsSound _ _ _ (λ _. accounts-elsewhere d _ _ _ _ s.accounts)
          s.accounts;
    machines =
        commit_if-keeps MachinesKept.IsSound _ _ _ (λ _. machines-elsewhere d _ _ _ _ _ s.machines)
          s.machines;
    requests = Lifecycle.update_requests-IsSound p f owner same machine sound d s.requests;
  };
}
