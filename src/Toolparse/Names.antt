-- ===== src/Toolparse/Names.antt =====
-- internal/toolparse/parser.go: the table of tool names and CanonicalToolName.
pub mod Stable
use openclawssy.Base.{
  ℕ, ◌≡◌, refl, Bool, true, false, ◌&&◌, ◌||◌, Option, none, some, List, [], ◌∷◌, Text, codes, trim,
  to_lower, contains_text, Map, lookup, text_eq, ◌==◌, if◌then◌else◌, replace_all,
}

unfoldable pub tool_aliases : Map Text Text
tool_aliases =
    (codes "fs.read", codes "fs.read")
    ∷ (codes "fs.list", codes "fs.list")
    ∷ (codes "fs.write", codes "fs.write")
    ∷ (codes "fs.append", codes "fs.append")
    ∷ (codes "fs.delete", codes "fs.delete")
    ∷ (codes "fs.move", codes "fs.move")
    ∷ (codes "fs.rename", codes "fs.move")
    ∷ (codes "fs.edit", codes "fs.edit")
    ∷ (codes "fs.mkdir", codes "fs.mkdir")
    ∷ (codes "code.search", codes "code.search")
    ∷ (codes "config.get", codes "config.get")
    ∷ (codes "config.set", codes "config.set")
    ∷ (codes "secrets.set", codes "secrets.set")
    ∷ (codes "secrets.list", codes "secrets.list")
    ∷ (codes "skill.list", codes "skill.list")
    ∷ (codes "skill.read", codes "skill.read")
    ∷ (codes "skill.get", codes "skill.read")
    ∷ (codes "scheduler.list", codes "scheduler.list")
    ∷ (codes "scheduler.add", codes "scheduler.add")
    ∷ (codes "scheduler.remove", codes "scheduler.remove")
    ∷ (codes "scheduler.pause", codes "scheduler.pause")
    ∷ (codes "scheduler.resume", codes "scheduler.resume")
    ∷ (codes "session.list", codes "session.list")
    ∷ (codes "session.close", codes "session.close")
    ∷ (codes "agent.list", codes "agent.list")
    ∷ (codes "agent.create", codes "agent.create")
    ∷ (codes "agent.switch", codes "agent.switch")
    ∷ (codes "agent.profile.get", codes "agent.profile.get")
    ∷ (codes "agent.profile.set", codes "agent.profile.set")
    ∷ (codes "agent.message.send", codes "agent.message.send")
    ∷ (codes "agent.message.inbox", codes "agent.message.inbox")
    ∷ (codes "agent.run", codes "agent.run")
    ∷ (codes "agent.prompt.read", codes "agent.prompt.read")
    ∷ (codes "agent.prompt.update", codes "agent.prompt.update")
    ∷ (codes "agent.prompt.suggest", codes "agent.prompt.suggest")
    ∷ (codes "agent.identity.set", codes "agent.identity.set")
    ∷ (codes "policy.list", codes "policy.list")
    ∷ (codes "policy.grant", codes "policy.grant")
    ∷ (codes "policy.revoke", codes "policy.revoke")
    ∷ (codes "run.list", codes "run.list")
    ∷ (codes "run.get", codes "run.get")
    ∷ (codes "run.cancel", codes "run.cancel")
    ∷ (codes "metrics.get", codes "metrics.get")
    ∷ (codes "memory.search", codes "memory.search")
    ∷ (codes "memory.write", codes "memory.write")
    ∷ (codes "memory.update", codes "memory.update")
    ∷ (codes "memory.forget", codes "memory.forget")
    ∷ (codes "memory.health", codes "memory.health")
    ∷ (codes "memory.checkpoint", codes "memory.checkpoint")
    ∷ (codes "memory.maintenance", codes "memory.maintenance")
    ∷ (codes "decision.log", codes "decision.log")
    ∷ (codes "http.request", codes "http.request")
    ∷ (codes "net.fetch", codes "http.request")
    ∷ (codes "time.now", codes "time.now")
    ∷ (codes "shell.exec", codes "shell.exec")
    ∷ (codes "bash.exec", codes "shell.exec")
    ∷ (codes "terminal.exec", codes "shell.exec")
    ∷ (codes "terminal.run", codes "shell.exec")
    ∷ (codes "becomussy.resume", codes "becomussy.resume")
    ∷ (codes "becomussy.memory.create", codes "becomussy.memory.create")
    ∷ (codes "becomussy.memory.search", codes "becomussy.memory.search")
    ∷ (codes "becomussy.memory.get", codes "becomussy.memory.get")
    ∷ (codes "becomussy.memory.reinforce", codes "becomussy.memory.reinforce")
    ∷ (codes "becomussy.journal.create", codes "becomussy.journal.create")
    ∷ (codes "becomussy.journal.search", codes "becomussy.journal.search")
    ∷ (codes "becomussy.threads.list", codes "becomussy.threads.list")
    ∷ (codes "becomussy.threads.create", codes "becomussy.threads.create")
    ∷ (codes "becomussy.projects.list", codes "becomussy.projects.list")
    ∷ (codes "becomussy.projects.create", codes "becomussy.projects.create")
    ∷ (codes "becomussy.selfmodel.current", codes "becomussy.selfmodel.current")
    ∷ (codes "becomussy.selfmodel.history", codes "becomussy.selfmodel.history")
    ∷ (codes "becomussy.selfmodel.propose", codes "becomussy.selfmodel.propose")
    ∷ (codes "becomussy.commitments.list", codes "becomussy.commitments.list")
    ∷ (codes "becomussy.commitments.create", codes "becomussy.commitments.create")
    ∷ (codes "becomussy.approvals.pending", codes "becomussy.approvals.pending")
    ∷ (codes "becomussy.audit.list", codes "becomussy.audit.list")
    ∷ (codes "continuity.resume", codes "becomussy.resume")
    ∷ (codes "becomussy.memory.store", codes "becomussy.memory.create")
    ∷ (codes "becomussy.journal.write", codes "becomussy.journal.create")
    ∷ (codes "becomussy.reflect", codes "becomussy.journal.create")
    ∷ []

-- The lookup of a name that is trimmed and lower case, as it stands or with `__` for dots.
unfoldable pub alias_of : Text → Option Text
alias_of candidate = elim (lookup candidate tool_aliases) [
  | some name ↦ some name
  | none ↦
      if contains_text candidate (codes "__")
      then lookup (replace_all (codes "__") (codes ".") candidate) tool_aliases
      else none
]

unfoldable pub canonical_tool_name : Text → Option Text
unfolding alias_of
canonical_tool_name name =
    let candidate = to_lower (trim name) in if candidate == [] then none else alias_of candidate
