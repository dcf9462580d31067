-- ===== src/Tests.antt =====
-- Runs of the models at concrete inputs, and the theorems at inputs that meet their hypotheses.
mod BookRuns
mod BookKept
mod UnlinkRuns
mod MatchRuns
mod BenchRuns
mod RingRuns
mod IndexRuns
mod RiskRuns
mod BboRuns
mod ArenaRuns
mod ItchRuns
mod SignalRuns
mod FeedRuns
mod PipelineRuns
mod MapRuns
mod JournalRuns
mod LoopRuns
mod AdvancedRuns
mod SessionRuns
