-- ===== src/Lib.antt =====
-- The web client of Codolympics, a programming contest in two phases: puzzles and hacking, then
-- auctions of coding questions and the rounds in which they are solved. The client is a Next.js
-- application under web/src; a Python engine behind it owns every decision, and the client's part is to
-- show the truth, hold competitors to the rules on the screen, and send what they mean to send. This
-- library models the client's logic: React state is a record, an effect or a handler is a function on
-- it, and what the network, the clock and the browser do comes in as events or arguments.
--
-- The parts, and the code that they model:
-- * Live, for components/contest-provider.tsx: `refresh` is `Refresh.ask`, `apply` is `Events.apply`,
--   the loop of `useEventPolling` is `Polling.tick`, `useEngineEvent` is `Events.engine_event`. Every
--   other part reads the contest's state from here.
-- * Follow, for lib/use-judgement.ts: `useFollow` is the machine of `Machine.happen`, `stageOf` and the
--   signature of `useJudgement` are in Stage. A delay is counted in eighths of a millisecond, in which
--   the five steps from 350 ms by half as much again to two seconds are exact.
-- * Phase, for lib/boards.ts, the dashboard's page.tsx, contest/phase-rail.tsx, ui/stepper.tsx and
--   components/shell.tsx: which board, screen, step, links and toasts belong to a phase.
-- * Site, for lib/session.ts, lib/auth.ts, lib/engine.ts, lib/client.ts, lib/came-from.ts,
--   app/page.tsx and app/(app)/layout.tsx: who is let in, what crosses to the engine, and
--   the way back from a record.
-- * Widgets, for ui/pagination.tsx, ui/reorder-list.tsx, ui/list-editor.tsx, phase1/puzzle-card.tsx,
--   components/countdown.tsx, ui/countdown-ring.tsx, action-button.tsx and reason-action.tsx.
-- * Arena, for contest/proctor.tsx, announcement-overlay.tsx, contest/blackout-overlay.tsx, the autosave
--   of contest/section-a.tsx, and contest/auction-floor.tsx.
-- * Rounds, for the pages contest/section-a.tsx, contest/section-b.tsx and contest/coding-round.tsx.
-- * Desk, for app/(app)/question/[id]/page.tsx, a question's workspace: `load`, `onChange` and the change
--   of language are `Drafts.load`, `on_change` and `switch`; the buttons and keys are in Submitting,
--   and contest/console.tsx, the runs of the samples and what is shown of them, is in Console.
-- * Authoring, for admin/puzzle-builder.tsx, admin/hack-builder.tsx and ui/wizard.tsx: `fromPuzzle` and
--   `toPayload` are `Puzzle.from_puzzle` and `to_payload`, the issues are in Issues, the steps, the save
--   and the reload that both builders share are the machine of Wizard, over any form.
-- * Marking, for app/(app)/grade/page.tsx: `rowsOf`, `stateOf` and the queue are in Queue, `AnswerCard` is
--   the machine of Card.
-- * Hammer, for app/(app)/admin/auction/page.tsx: the queue's order and the sales recorded from
--   the room, with the dialog that asks first (`ActionButton`) in Recording.
-- * Package, for lib/package-inspect.ts: `inspectPackage` is `Inspect.inspect`.
-- * Shop, for app/(app)/marketplace/page.tsx, whose requests are the machine of Market, and
--   admin/powerups.tsx: `valueOf` is `Powerups.value_of`.
-- * Admin, for app/(app)/admin/contest/page.tsx: `save` and the form are `Settings.save` and the machine
--   of Settings, the reset dialog is in Reset.
-- * Sections, for admin/phase1-lists.tsx and phase1-order.tsx: the lists of questions, the confirmation
--   of an action, the selection for Phase 2 (`Review`) and the order of a section (`Ordering`).
-- * Roster, for app/(app)/admin/participants/page.tsx and [id]/page.tsx and admin/participant-actions.tsx.
-- * Office, for app/(app)/admin/page.tsx (`Dashboard`) and, under it, judge (`Feed`), submissions
--   (`Drawer`), readiness (`Checklist`) and announcements (`Announcing`), and for admin/standings.tsx.
-- All these paths are under web/src/components, web/src/lib or web/src/app.
--
-- Numbers are natural where the source's are counts, ids, coins and times, and integers where it
-- subtracts clocks; JavaScript's numbers are exact on them below 2^53. No function runs on fuel: each
-- loop is a recursion on the list of events or items that it is given, so it ends.
--
-- Parameters stand for code that is not in the repository: `fetch` (an answer or none), Better Auth's
-- session, `localeCompare`, `trim`, `encodeURIComponent`, the browser's storage and full screen, the zip
-- library, and (in `Authoring.Platform`) JavaScript's numbers with what `String` and `trim` promise. The
-- engine's log is a list of events with rising ids, and its honesty in answering a poll is a named
-- hypothesis of the theorem that needs it.
--
-- Not modelled: the markup and its texts, the component library, the other admin screens, the database
-- schema, and the Python engine, judge and worker, which the client meets as answers only.
pub mod Prelude
pub mod Live
pub mod Follow
pub mod Phase
pub mod Site
pub mod Widgets
pub mod Arena
pub mod Rounds
pub mod Desk
pub mod Authoring
pub mod Marking
pub mod Hammer
pub mod Package
pub mod Shop
pub mod Admin
pub mod Sections
pub mod Roster
pub mod Office
