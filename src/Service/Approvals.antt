-- ===== src/Service/Approvals.antt =====
-- casper_service/main.py: pending approvals, and how they are decided.
-- What acts on a decision is a parameter: the handler of a kind works on the state of its part, and a
-- resumed conversation may create further approvals, whose ids are drawn.
use doc_chat_template_scc.Common.{
  ℕ, Bool, not, ◌&&◌, Option, none, some, List, [], ◌∷◌, ◌++◌, String, if◌then◌else◌, ◌==◌, select,
  first, str_eq,
}
use doc_chat_template_scc.Service.Data.{Store}
use doc_chat_template_scc.Service.Accounts.{resolve_user_id}

-- a row of `pending_approvals`; `content` is the payload or the turn
pub record PendingApproval : Type 0 where
  pub id : String
  pub user_id : ℕ
  pub description : String
  pub kind : String
  pub content : String
  pub requester_user_id : Option ℕ

-- the tables of the service, the approvals, and the state `W` that decisions act on
pub record Desk (W : Type 0) : Type 0 where
  pub store : Store
  pub approvals : List PendingApproval
  pub rest : W

pub data DecideReply : Type 0 where
  done : (message : String) → DecideReply
  unknown_kind : String → DecideReply
  invalid_token unknown_approval : DecideReply

abbrev pub has_approval_id : String → PendingApproval → Bool
has_approval_id id a = str_eq a.id id

-- `WHERE id = ? AND user_id = ?`
abbrev pub is_own_approval : ℕ → String → PendingApproval → Bool
is_own_approval user_id id a = has_approval_id id a && a.user_id == user_id

-- `DELETE FROM pending_approvals WHERE id = ?`
abbrev pub drop_approval : String → List PendingApproval → List PendingApproval
drop_approval id approvals = select (λ a. not (has_approval_id id a)) approvals

module _ {W : Type 0} where
  -- `create_approval`, with the id that it draws; the news to the approver is left out
  unfoldable pub create_approval : String → ℕ → ℕ → String → String → String → Desk W → Desk W
  create_approval id approver_id requester_id kind description payload d = record d {
    approvals =
        d.approvals
        ++ (record {
          id = id;
          user_id = approver_id;
          description = description;
          kind = kind;
          content = payload;
          requester_user_id = some requester_id;
        })
          ∷ [];
  }

  module _ (handlers : String → Option (PendingApproval → String → W → String × W))
      (converse : PendingApproval → String → W → (String × W) × List PendingApproval)
      (hash_token : List ℕ → String) where
    abbrev pub handle :
        Option (PendingApproval → String → W → String × W)
        → PendingApproval
        → String
        → Desk W
        → DecideReply × Desk W
    handle none a decision d = (unknown_kind a.kind, d)
    handle (some h) a decision d =
        let (message, rest) = h a decision d.rest in (done message, record d { rest = rest })

    abbrev pub resume_conversation : PendingApproval → String → Desk W → DecideReply × Desk W
    resume_conversation a decision d =
        let ((message, rest), created) = converse a decision d.rest in
        (done message, record d { rest = rest; approvals = d.approvals ++ created })

    -- `_resume_pending_approval`
    unfoldable pub resume_pending_approval :
        PendingApproval → String → Desk W → DecideReply × Desk W
    resume_pending_approval a decision d =
        let dropped = record d { approvals = drop_approval a.id d.approvals } in
        if str_eq a.kind "conversation"
        then resume_conversation a decision dropped
        else handle (handlers a.kind) a decision dropped

    abbrev pub decide_found : Option PendingApproval → String → Desk W → DecideReply × Desk W
    decide_found none decision d = (unknown_approval, d)
    decide_found (some a) decision d = resume_pending_approval a decision d

    abbrev pub decide_by : Option ℕ → String → String → Desk W → DecideReply × Desk W
    decide_by none id decision d = (invalid_token, d)
    decide_by (some user_id) id decision d =
        decide_found (first (is_own_approval user_id id) d.approvals) decision d

    -- `decide_pending_approval`
    unfoldable pub decide_pending_approval :
        List ℕ → String → String → Desk W → DecideReply × Desk W
    unfolding resolve_user_id resume_pending_approval
    decide_pending_approval authorization id decision d =
        decide_by (resolve_user_id hash_token authorization d.store) id decision d
