-- ===== src/Tests.antt =====
-- The theorems at concrete inputs, and runs of the definitions.
mod RiskRuns
mod ProbeRuns
mod PolicyRuns
mod GatewayRuns
mod AdmissionRuns
mod ClientRuns
mod RequestRuns
mod ToyCipher
mod CryptoRuns
mod RefreshRuns
