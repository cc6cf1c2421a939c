-- ===== src/Tests.antt =====
-- Runs of the models on concrete inputs, each an instance of a theorem.
mod NvramRuns
mod D3lutRuns
mod RingRuns
mod PortRuns
mod RegistryRuns
mod SkbRuns
mod DmaRuns
mod CascadeRuns
mod VpcieRuns
mod LedsRuns
mod NetdevRuns
mod FlagRuns
mod PktlistRuns
