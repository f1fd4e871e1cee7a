-- ===== src/Llm/Prompts.antt =====
-- The system prompts of backend/llm/together.py.
use orca_validator.Prelude.{[], ◌∷◌, Text, lit, join}

-- `system` of analyze_contract
unfoldable pub analysis_sys : Text
analysis_sys = join [] (
    lit "You are a meticulous document analyst. Analyze the document and respond with JSON only, "
    ∷ lit "using exactly these keys: "
    ∷ lit "summary (string — a succinct plain-language summary of what the document is and says), "
    ∷ lit "aims (string — what the document is trying to achieve), "
    ∷ lit "parties (array of strings), "
    ∷ lit "key_terms (array of objects {term, detail}), "
    ∷ lit "strengths (array of strings), "
    ∷ lit "weaknesses (array of strings), "
    ∷ lit "potential_pitfalls (array of strings — risks or ways this could go wrong in practice), "
    ∷ lit "issues (array of objects {severity: one of high|medium|low, issue, recommendation}), "
    ∷ lit "missing_or_weak_clauses (array of strings), "
    ∷ lit "overall_recommendation (string)."
    ∷ [])

-- `system` of classify_and_check_fields
unfoldable pub classification_sys : Text
classification_sys = join [] (
    lit
      "You are a document analyst. FIRST identify the KIND of document. THEN list the 3-6 fields or "
    ∷ lit
        "elements that a well-formed document OF THAT KIND should contain — fields that genuinely "
    ∷ lit "matter for this kind, NOT generic ones — and whether each is present in the text. "
    ∷ lit
        "Respond with JSON only: {\"document_type\": string (e.g. 'employment contract', 'invoice', "
    ∷ lit "'cover letter', 'resume', 'research paper', 'privacy policy', 'meeting minutes'), "
    ∷ lit "\"required_fields\": [{\"name\": string in snake_case, \"present\": boolean}]}. "
    ∷ lit "Examples — contract: parties, effective_date, term, signatures, governing_law; "
    ∷ lit "invoice: invoice_number, invoice_date, total_amount, vendor, line_items; "
    ∷ lit "resume: contact_info, work_experience, education, skills; "
    ∷ lit "letter: date, recipient, sender, signature."
    ∷ [])

-- `_FSM_FORMAT`
unfoldable pub fsm_format : Text
fsm_format = join (lit "\n") (
    lit "Express the lifecycle / process the document describes as a state machine in"
    ∷ lit "ORCA Markdown. Follow this format EXACTLY:"
    ∷ []
    ∷ lit "# machine NameInPascalCase"
    ∷ []
    ∷ lit "## events"
    ∷ lit "- EVENT_IN_UPPER_SNAKE"
    ∷ []
    ∷ lit "## state state_in_snake_case [initial]"
    ∷ lit
        "> a SHORT 2-5 word label for this state (e.g. \"Drafting\", \"Active license\", \"Terminated\")"
    ∷ lit "- ignore: *"
    ∷ []
    ∷ lit "## state terminal_state [final]"
    ∷ []
    ∷ lit "## transitions"
    ∷ lit "| Source | Event | Guard | Target | Action |"
    ∷ lit "|---|---|---|---|---|"
    ∷ lit "| state_in_snake_case | EVENT_IN_UPPER_SNAKE | | terminal_state | |"
    ∷ []
    ∷ lit "HIERARCHY — use ONLY when a phase has its own internal sub-lifecycle:"
    ∷ lit
        "Make that phase a COMPOSITE state: write the parent as `## state parent` (NO [initial]/[final]) and"
    ∷ lit
        "nest its child states one heading level deeper as `### state child`, marking exactly ONE child"
    ∷ lit
        "[initial]. Transitions may target the parent (which enters its initial child) or any child directly."
    ∷ lit "Example — an \"active\" phase that cycles internally:"
    ∷ []
    ∷ lit "## state active"
    ∷ lit "> Active"
    ∷ lit "- ignore: *"
    ∷ []
    ∷ lit "### state in_good_standing [initial]"
    ∷ lit "> In good standing"
    ∷ lit "- ignore: *"
    ∷ []
    ∷ lit "### state in_dispute"
    ∷ lit "> In dispute"
    ∷ lit "- ignore: *"
    ∷ []
    ∷ lit
        "To LEAVE a composite for a state OUTSIDE it, put that transition on the PARENT composite, not on a"
    ∷ lit
        "child — e.g. `| active | TERMINATE | | terminated | |`, which applies to ALL of active's children. A"
    ∷ lit "child may only transition to a sibling inside the same composite. (ORCA does NOT treat a"
    ∷ lit
        "child→outside transition as reaching the outside state, so an exit written on a child fails"
    ∷ lit "verification with the outside state \"unreachable\".)"
    ∷ []
    ∷ lit "RULES (a verifier will check these):"
    ∷ lit
        "- The FIRST line MUST be exactly `# machine NameInPascalCase` — include the literal word \"machine\"."
    ∷ lit
        "- Exactly ONE top-level state marked [initial]; mark every terminal state [final]. Each composite"
    ∷ lit
        "  has exactly ONE child marked [initial]. A composite parent is NOT marked [initial] or [final]."
    ∷ lit
        "- Every non-final state (parents and children) needs at least one outgoing transition AND a"
    ∷ lit "  \"- ignore: *\" line."
    ∷ lit
        "- Every state must be reachable from the initial state. Nest at most 2 levels deep, and ONLY when"
    ∷ lit "  the document genuinely describes sub-states within a phase — otherwise keep it flat."
    ∷ lit
        "- Model the document's REAL stages/lifecycle (e.g. a contract: drafting → effective → active →"
    ∷ lit "  renewal/termination; an agreement's obligations as conditional transitions)."
    ∷ lit "- Output ONLY the .orca.md document — no preamble, no explanation, no ``` fences."
    ∷ [])
